-- ===== src/Agent/Chunk.antt =====
-- The pieces of an answer that the client receives: `StreamChunk` of agent-runtime/app/api/v1/schemas/
-- common.py.
use codelab_ai_service.Prelude.Json.{Json}
use codelab_ai_service.Prelude.{Bool, Dict, Option, String, Text, false, none, some, str_eq, true}

pub data ChunkType : Type 0 where
  assistant_message tool_call error done switch_agent agent_switched : ChunkType

pub record StreamChunk : Type 0 where
  pub type : ChunkType
  pub content : Option Text
  pub token : Option Text
  pub is_final : Bool
  pub call_id : Option String
  pub tool_name : Option String
  pub arguments : Option (Dict Json)
  pub requires_approval : Option Bool
  pub error : Option Text
  pub metadata : Option (Dict Json)

-- A chunk with the defaults of its fields.
abbrev pub new_chunk : ChunkType → Bool → StreamChunk
new_chunk type final = record {
  type = type;
  content = none;
  token = none;
  is_final = final;
  call_id = none;
  tool_name = none;
  arguments = none;
  requires_approval = some false;
  error = none;
  metadata = none;
}

abbrev pub error_chunk : Text → StreamChunk
error_chunk message = record (new_chunk error true) { error = some message }

-- chunk.type == "tool_call", and chunk.type == "switch_agent".
abbrev pub is_tool_call : StreamChunk → Bool
is_tool_call c = elim c.type [ tool_call ↦ true | _ ↦ false ]

abbrev pub is_switch : StreamChunk → Bool
is_switch c = elim c.type [ switch_agent ↦ true | _ ↦ false ]

-- chunk.tool_name == name
abbrev pub calls : StreamChunk → String → Bool
calls c name = elim c.tool_name [ none ↦ false | some n ↦ str_eq n name ]
