-- ===== src/Agent/Processing.antt =====
-- agent-runtime/app/domain/services/message_processor.py: a message of the user taken through the
-- agents. What an agent yields is an argument, a stream that holds the state of the services at each
-- chunk; the rest of an abandoned stream is not run. The infrastructure's events are those that the
-- processor publishes.
mod Handover
mod Tests
use codelab_ai_service.Agent.SessionManagement.{
  add_message, Posted, Birth, get_session, failed, returned, Draft, get_or_create_session,
}
use codelab_ai_service.Prelude.Json.{Json, text}
use codelab_ai_service.Agent.Context.{AgentType, AgentContext, orchestrator, same_agent}
use codelab_ai_service.Agent.Orchestration.{ContextRepository, get_or_create_context}
use codelab_ai_service.Agent.Session.{Session}
use codelab_ai_service.Agent.Chunk.{StreamChunk, is_switch}
use codelab_ai_service.Agent.Registry.{AgentRegistry, get_agent}
use codelab_ai_service.Agent.Switching.{
  Services, SwitchReads, HelperError, handle_agent_switch_request, session_error,
  create_agent_switched_chunk, execute_agent_switch, replied,
}
use codelab_ai_service.Prelude.{
  Bool, List, Option, String, Text, if◌then◌else◌, inl, inr, none, some, ◌∷◌, [], false, get_or,
  has_text, true, ◌&&◌, ◌⊎◌,
}

-- message is not None and message != ""
abbrev pub has_message : Option Text → Bool
has_message none = false
has_message (some t) = has_text t

-- What processing raises: an error of the helper, or an agent that is not registered or that raised.
pub data ProcessError : Type 0 where
  helper_error : HelperError → ProcessError
  not_registered : AgentType → ProcessError
  agent_raised : ProcessError

-- `AgentErrorOccurredEvent` and `AgentProcessingCompletedEvent`.
pub data ProcessEvent : Type 0 where
  error_occurred : String → AgentType → ProcessError → ProcessEvent
  processing_completed : String → AgentType → Bool → ProcessEvent

-- What a call reads of the clock and of `uuid4`.
pub record ProcessReads : Type 0 where
  pub posted : Posted
  pub birth : Birth
  pub uuid : String
  pub explicit : SwitchReads
  pub routed : SwitchReads
  pub asked : SwitchReads

abbrev pub user_draft : Text → Draft
user_draft content = record {
  role = "user";
  content = content;
  name = none;
  tool_call_id = none;
  tool_calls = none;
}

module _ (repo : ContextRepository) where
  -- The chunks of an agent, each with the services when it is yielded.
  pub data AgentStream : Type 0 where
    ended : Services repo → AgentStream
    raising : Services repo → AgentStream
    yielded : StreamChunk → Services repo → AgentStream → AgentStream

  -- `agent.process`, of the message, the context and the session.
  abbrev pub Agent : Type 0
  Agent = Option Text → AgentContext → Session → Services repo → AgentStream

  -- The chunks that were yielded, what was raised, and the services at the end.
  pub record Outputs : Type 0 where
    pub chunks : List StreamChunk
    pub raised : Option ProcessError
    pub services : Services repo

  abbrev pub stopped : Option ProcessError → Services repo → Outputs
  stopped e w = record { chunks = []; raised = e; services = w }

  abbrev pub after : StreamChunk → Outputs → Outputs
  after c o = record o { chunks = c ∷ o.chunks }

  -- All chunks of an agent.
  unfoldable pub forward : AgentStream → Outputs
  forward (ended w) = stopped none w
  forward (raising w) = stopped (some agent_raised) w
  forward (yielded c w rest) = after c (forward rest)

  module _ (dumps : Json → Text) (agents : AgentRegistry Agent) (session_id : String)
      (message handover : Option Text) (reads : ProcessReads) where
    -- The new agent takes over, with the session as it is now and the message that is handed over.
    abbrev pub take_over : AgentContext → Services repo → Outputs
    take_over context w = elim (get_session session_id w.sessions) [
      | inl e ↦ stopped (some (helper_error (session_error e))) w
      | inr session ↦ elim (get_agent context.current_agent agents) [
        | none ↦ stopped (some (not_registered context.current_agent)) w
        | some agent ↦ forward (agent handover context session w)
      ]
    ]

    -- What follows a request to switch.
    abbrev pub go_over :
        AgentContext → (HelperError ⊎ (AgentContext × StreamChunk)) × Services repo → Outputs
    go_over context (inl e, w) = stopped (some (helper_error e)) w
    go_over context (inr (context', note), w) = after note (take_over context' w)

    -- The chunks of the current agent, up to a request to switch.
    unfoldable pub watch : AgentContext → AgentStream → Outputs
    unfolding forward
    watch context (ended w) = stopped none w
    watch context (raising w) = stopped (some agent_raised) w
    watch context (yielded c w rest) =
        let watched = watch context rest in
        if is_switch c
        then go_over context
            (handle_agent_switch_request repo dumps reads.asked session_id c context w)
        else after c watched

    -- The current agent works on the message.
    abbrev pub work : AgentContext → Session → Services repo → Outputs
    work context session w = elim (get_agent context.current_agent agents) [
      | none ↦ stopped (some (not_registered context.current_agent)) w
      | some agent ↦ watch context (agent message context session w)
    ]

    -- The routing by the orchestrator: its request to switch ends its stream.
    abbrev pub routed_to :
        Session → (HelperError ⊎ (AgentContext × StreamChunk)) × Services repo → Outputs
    routed_to session (inl e, w) = stopped (some (helper_error e)) w
    routed_to session (inr (context', note), w) = after note (work context' session w)

    unfoldable pub route_through : AgentContext → Session → AgentStream → Outputs
    unfolding watch
    route_through context session (ended w) = work context session w
    route_through context session (raising w) = stopped (some agent_raised) w
    route_through context session (yielded c w rest) =
        let routed = route_through context session rest in
        if is_switch c
        then routed_to session
            (handle_agent_switch_request repo dumps reads.routed session_id c context w)
        else after c routed

    abbrev pub hand_to : AgentContext → Session → Services repo → Outputs
    hand_to context session w =
        if same_agent context.current_agent orchestrator && has_message message
        then elim (get_agent orchestrator agents) [
          | none ↦ stopped (some (not_registered orchestrator)) w
          | some agent ↦ route_through context session (agent message context session w)
        ]
        else work context session w

    -- The switch that the user asked for.
    abbrev pub switched_to :
        AgentType → AgentType → Session → (HelperError ⊎ AgentContext) × Services repo → Outputs
    switched_to from to session (inl e, w) = stopped (some (helper_error e)) w
    switched_to from to session (inr context, w) =
        after (create_agent_switched_chunk from to "User requested" (text "high") false)
          (hand_to context session w)

    abbrev pub begin : Option AgentType → AgentContext → Session → Services repo → Outputs
    begin none context session w = hand_to context session w
    begin (some type) context session w =
        if same_agent context.current_agent type
        then hand_to context session w
        else switched_to context.current_agent type session (
            execute_agent_switch repo reads.explicit session_id type "User requested agent switch"
              (some "high") w)

  -- What a call of `process` did: an error before the processing began, or its outputs and events.
  pub data Processed : Type 0 where
    early : HelperError → Services repo → Processed
    processed : Outputs → List ProcessEvent → Processed

  -- The `except` and the `finally` clauses.
  abbrev pub events_of : String → AgentType → Option ProcessError → List ProcessEvent
  events_of session_id agent none = processing_completed session_id agent true ∷ []
  events_of session_id agent (some e) =
      error_occurred session_id agent e ∷ processing_completed session_id agent false ∷ []

  abbrev pub finish : String → AgentType → Outputs → Processed
  finish session_id agent o = processed o (events_of session_id agent o.raised)

  -- The processing once there are a session and a context.
  abbrev pub started :
      (Json → Text)
      → AgentRegistry Agent
      → String
      → Option Text
      → Option AgentType
      → ProcessReads
      → Session
      → (HelperError ⊎ AgentContext) × Services repo
      → Processed
  started dumps agents session_id message type reads session (inl e, w) = early e w
  started dumps agents session_id message type reads session (inr context, w) =
      finish session_id context.current_agent
        (begin dumps agents session_id message message reads type context session w)

  -- The processing once the message is in the session.
  unfoldable pub process_added :
      (Json → Text)
      → AgentRegistry Agent
      → String
      → Option Text
      → Option AgentType
      → ProcessReads
      → Services repo
      → Processed
  unfolding watch route_through
  process_added dumps agents session_id message type reads w =
      elim (get_or_create_session reads.birth session_id w.sessions) [
        | failed e ↦ early (session_error e) w
        | returned session s ↦ started dumps agents session_id message type reads session (
            replied repo (record w { sessions = s })
              (get_or_create_context repo reads.uuid session_id (get_or type orchestrator)
                w.contexts))
      ]

  unfoldable pub process :
      (Json → Text)
      → AgentRegistry Agent
      → String
      → Option Text
      → Option AgentType
      → ProcessReads
      → Services repo
      → Processed
  unfolding process_added
  process dumps agents session_id message type reads w =
      if has_message message
      then elim (add_message reads.posted session_id (user_draft (get_or message [])) w.sessions) [
        | failed e ↦ early (session_error e) w
        | returned m s ↦
            process_added dumps agents session_id message type reads (record w { sessions = s })
      ]
      else process_added dumps agents session_id message type reads w
