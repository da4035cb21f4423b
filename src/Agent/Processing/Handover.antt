-- ===== src/Agent/Processing/Handover.antt =====
-- A switch in the middle of the work of an agent (message_processor.py): what is passed on.
use codelab_ai_service.Prelude.{
  List, Option, String, Text, ap, false, map, none, refl, some, true, arith, ◌++◌, ◌∷◌, ◌≡◌, [],
  inr, ◌∙◌,
}
use codelab_ai_service.Prelude.Json.{Json}
use codelab_ai_service.Agent.Context.{AgentContext}
use codelab_ai_service.Agent.Chunk.{StreamChunk, is_switch}
use codelab_ai_service.Agent.Orchestration.{ContextRepository}
use codelab_ai_service.Agent.Registry.{AgentRegistry, get_agent}
use codelab_ai_service.Agent.Session.{Session}
use codelab_ai_service.Agent.SessionManagement.{get_session}
use codelab_ai_service.Agent.Switching.{
  Services, SwitchRequest, handle_agent_switch_request, switch_request,
}
use codelab_ai_service.Agent.Switching.Consistency.{handle_agent_switch_request-agrees}
use codelab_ai_service.Agent.Processing.{
  Agent, AgentStream, Outputs, ProcessError, ProcessReads, agent_raised, ended, raising, yielded,
  after, forward, watch,
}

-- What a stream yields, whether it breaks off, and the services at its end.
module _ (repo : ContextRepository) where
  unfoldable pub chunks_in : AgentStream repo → List StreamChunk
  chunks_in (ended w) = []
  chunks_in (raising w) = []
  chunks_in (yielded c w rest) = c ∷ chunks_in rest

  unfoldable pub breaking : AgentStream repo → Option ProcessError
  breaking (ended w) = none
  breaking (raising w) = some agent_raised
  breaking (yielded c w rest) = breaking rest

  unfoldable pub end_of : AgentStream repo → Services repo
  end_of (ended w) = w
  end_of (raising w) = w
  end_of (yielded c w rest) = end_of rest

  -- A stream that begins with the chunks of a list.
  unfoldable pub starting : List (StreamChunk × Services repo) → AgentStream repo → AgentStream repo
  starting [] stream = stream
  starting ((c, w) ∷ chunks) stream = yielded c w (starting chunks stream)

  -- No chunk of the list is a request to switch.
  unfoldable pub AreQuiet : List (StreamChunk × Services repo) → Type 0
  AreQuiet [] = Unit
  AreQuiet ((c, w) ∷ chunks) = (is_switch c ≡ false) × AreQuiet chunks

  forward-whole :
      (stream : AgentStream repo)
      → forward repo stream
        ≡ record { chunks = chunks_in stream; raised = breaking stream; services = end_of stream }
  unfolding forward chunks_in breaking end_of
  forward-whole (ended w) = refl
  forward-whole (raising w) = refl
  forward-whole (yielded c w rest) = ap (after repo c) (forward-whole rest)

  module _ (dumps : Json → Text) (agents : AgentRegistry (Agent repo)) (session_id : String)
      (message handover : Option Text) (reads : ProcessReads) (context : AgentContext) where
    watch-starting :
        (chunks : List (StreamChunk × Services repo)) (stream : AgentStream repo)
        → AreQuiet chunks
        → watch repo dumps agents session_id message handover reads context (starting chunks stream)
          ≡ (let o = watch repo dumps agents session_id message handover reads context stream in
              record o {
                chunks = map (λ (e : StreamChunk × Services repo). e.0) chunks ++ o.chunks;
              })
    unfolding watch starting AreQuiet
    watch-starting [] stream quiet = refl
    watch-starting ((c, w) ∷ chunks) stream quiet =
        let rest = watch-starting chunks stream quiet.1 in ground (arith, quiet.0, rest)

    -- When the current agent, after chunks of which none is a request to switch, yields such a
    -- request, the request names an agent that is registered, the switch succeeds and the session
    -- can be read: the user gets the chunks before the request in their order, then the
    -- notification of the switch, then every chunk that the registered agent yields on the context,
    -- the session and the services after the switch; the call raises only if that agent does, its
    -- services are those at the end of that agent, and what the first agent would have gone on with
    -- has no effect.
    pub watch-hands_over :
        (chunks : List (StreamChunk × Services repo)) (c note : StreamChunk) (w w' : Services repo)
        (rest : AgentStream repo) (q : SwitchRequest) (context' : AgentContext) (session : Session)
        (agent : Agent repo)
        → AreQuiet chunks
        → is_switch c ≡ true
        → switch_request c ≡ some q
        → handle_agent_switch_request repo dumps reads.asked session_id c context w
          ≡ (inr (context', note), w')
        → get_session session_id w'.sessions ≡ inr session
        → get_agent q.target agents ≡ some agent
        → let stream = agent handover context' session w' in
          watch repo dumps agents session_id message handover reads context
            (starting chunks (yielded c w rest))
          ≡ record {
            chunks =
                map (λ (e : StreamChunk × Services repo). e.0) chunks ++ note ∷ chunks_in stream;
            raised = breaking stream;
            services = end_of stream;
          }
    unfolding watch
    watch-hands_over chunks c note w w' rest q context' session agent quiet switching asked switched
          found registered =
        let agrees =
          handle_agent_switch_request-agrees repo dumps reads.asked session_id c note context
            context' w w' switched in
        let now : get_agent context'.current_agent agents ≡ some agent =
          ground (arith, asked, agrees.1, agrees.2, registered) in
        let whole = forward-whole (agent handover context' session w') in
        let here : watch repo dumps agents session_id message handover reads context
              (yielded c w rest)
            ≡ after repo note (forward repo (agent handover context' session w')) =
          ground (arith, switching, switched, found, now) in
        watch-starting chunks (yielded c w rest) quiet
        ∙ ap
            (λ (o : Outputs repo). record o {
              chunks = map (λ (e : StreamChunk × Services repo). e.0) chunks ++ o.chunks;
            })
            (here ∙ ap (after repo note) whole)
