-- ===== src/Agent/Decision/Tests.antt =====
-- A user who rejects a call of a tool that is pending.
use codelab_ai_service.Prelude.{false, none, ◌∷◌, []}
use codelab_ai_service.Agent.Orchestration.Tests.{memory, empty}
use codelab_ai_service.Agent.Session.{new_session}
use codelab_ai_service.Agent.SessionRepository.{new_model}
use codelab_ai_service.Agent.SessionManagement.{Posted}
use codelab_ai_service.Agent.Switching.{Services, SwitchReads}
use codelab_ai_service.Agent.Processing.{ProcessReads}
use codelab_ai_service.Agent.Approvals.{new_approval}
use codelab_ai_service.Agent.Approvals.Manager.{Manager}

abbrev posted : Posted
posted = record { uuid = "m"; created = 3; active = 4; marked = 5 }

abbrev switching : SwitchReads
switching = record {
  posted = posted;
  uuid = "x";
  stamp = record { uuid = "sw"; created = 10; switched = 11; marked = 12 };
}

abbrev reads : ProcessReads
reads = record {
  posted = posted;
  birth = record { uuid = "b"; created = 1; active = 2 };
  uuid = "c";
  explicit = switching;
  routed = switching;
  asked = switching;
}

abbrev services : Services memory
services = record {
  sessions = record {
    db = record { sessions = new_model (new_session "s" 1 2) ∷ []; messages = [] };
    publisher = false;
    published = [];
  };
  contexts = empty;
}

abbrev manager : Manager
manager = record {
  rows =
      new_approval 7 (record {
        request_id = "call";
        request_type = "tool";
        subject = "write_file";
        session_id = "s";
        details = [];
        reason = none;
      })
      ∷ [];
  events = [];
}
