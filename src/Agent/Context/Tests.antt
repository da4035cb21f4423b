-- ===== src/Agent/Context/Tests.antt =====
-- Runs of a context (agent_context.py), and the theorems about it at concrete inputs.
use codelab_ai_service.Prelude.{List, arith, none, refl, ◌∷◌, ◌≡◌, []}
use codelab_ai_service.Agent.Context.Limit.{SameAgent, run-SameAgent}
use codelab_ai_service.Agent.Context.{
  run, AgentContext, Stamp, debug, coder, new_context, apply, Call, orchestrator, switch, annotate,
  reset,
}
use codelab_ai_service.Agent.Context.History.{IsConsistent, run-IsConsistent}
use codelab_ai_service.Prelude.Json.{Json}

abbrev stamp : Stamp
stamp = record { uuid = "sw"; created = 10; switched = 11; marked = 12 }

abbrev fresh : AgentContext
fresh = new_context "ctx" "s1" orchestrator

abbrev calls : List Call
calls =
    switch stamp coder "code" none
    ∷ switch stamp coder "again" none
    ∷ annotate 13 "k" Json.null
    ∷ reset stamp "done"
    ∷ []

run-calls : (run calls fresh).current_agent ≡ orchestrator
unfolding run apply
run-calls = refl

count_calls : (run calls fresh).switch_count ≡ 2
unfolding run apply
count_calls = refl

run-IsConsistent_example :
    IsConsistent orchestrator (run calls (new_context "ctx" "s1" orchestrator))
run-IsConsistent_example = run-IsConsistent "ctx" "s1" orchestrator calls

abbrev full : AgentContext
full = record fresh { current_agent = debug; switch_count = 50 }

run-SameAgent_example : SameAgent full (run calls full)
run-SameAgent_example = run-SameAgent calls full (omega arith)
