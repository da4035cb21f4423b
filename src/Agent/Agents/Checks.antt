-- ===== src/Agent/Agents/Checks.antt =====
-- The shape of the checks of the agents: agent-runtime/app/agents/*.py.
use codelab_ai_service.Prelude.Json.{Json, text}
use codelab_ai_service.Agent.Agents.{
  argument, BaseAgent, FilePattern, ChunkVerdict, relay, pass, stop, raise, is_allowed, matches_any,
  check_path, can_edit_file, ask_switch,
}
use codelab_ai_service.Agent.Chunk.{StreamChunk, is_tool_call, calls}
use codelab_ai_service.Prelude.{
  All, Bool, List, codes, false, inl, inr, not, refl, some, true, ◌&&◌, ◌||◌, ◌∷◌, ◌≡◌, ◌⊎◌, [],
  Text, arith, Bool-cases, if◌then◌else◌, ◌≢◌,
}

-- Whether the path of a call matches a pattern, where there are patterns.
abbrev pub has_free_path : List FilePattern → StreamChunk → Bool
has_free_path [] c = true
has_free_path (p ∷ ps) c = elim (argument "path" (text "") c) [
  | some (text path) ↦ matches_any (p ∷ ps) (codes path)
  | _ ↦ false
]

-- A chunk that calls no tool, or one that the agent has, at a path that it may write.
abbrev pub is_within : BaseAgent → StreamChunk → Bool
is_within agent c =
    not (is_tool_call c)
    || (is_allowed agent c
        && (not (calls c "write_file") || has_free_path agent.file_restrictions c))

ChunkVerdict-cases :
    (v : ChunkVerdict) → (v ≡ pass) ⊎ (((d : StreamChunk) × (v ≡ stop d)) ⊎ (v ≡ raise))
ChunkVerdict-cases pass = inl refl
ChunkVerdict-cases (stop d) = inr (inl (d, refl))
ChunkVerdict-cases raise = inr (inr refl)

module _ (agent : BaseAgent) (check : StreamChunk → ChunkVerdict)
    (passed : (c : StreamChunk) → check c ≡ pass → is_within agent c ≡ true)
    (stopped : (c d : StreamChunk) → check c ≡ stop d → is_tool_call d ≡ false) where
  pub relay-All :
      (cs : List StreamChunk) → All (λ c. is_within agent c ≡ true) (relay check cs).chunks
  unfolding relay
  relay-All [] = tt
  relay-All (c ∷ cs) = elim (ChunkVerdict-cases (check c)) [
    | inl e ↦ rw (e, relay) (passed c e, relay-All cs)
    | inr (inl (d, e)) ↦
        let calm : is_within agent d ≡ true = ground (arith, stopped c d e) in
        rw (e, relay) (calm, tt)
    | inr (inr e) ↦ rw (e, relay) tt
  ]

check_path-pass :
    (agent : BaseAgent) (refusal : Json → Text) (c : StreamChunk)
    → check_path agent refusal c ≡ pass
    → has_free_path agent.file_restrictions c ≡ true
unfolding can_edit_file
check_path-pass agent refusal c h = ground arith

check_path-stop :
    (agent : BaseAgent) (refusal : Json → Text) (c d : StreamChunk)
    → check_path agent refusal c ≡ stop d
    → is_tool_call d ≡ false
check_path-stop agent refusal c d h = ground arith

ask_switch-stop :
    (show : Json → Text) (c d : StreamChunk) → ask_switch show c ≡ stop d → is_tool_call d ≡ false
ask_switch-stop show c d h = ground arith

ask_switch-pass : (show : Json → Text) (c : StreamChunk) → ask_switch show c ≢ pass
ask_switch-pass show c h = ground arith

-- The rest of every check: a call of an allowed tool is passed on, at a path that may be written.
abbrev pub allowed : BaseAgent → (Json → Text) → Bool → StreamChunk → StreamChunk → ChunkVerdict
allowed agent refusal checks_path wrong c =
    if not (is_allowed agent c)
    then stop wrong
    else if checks_path && calls c "write_file"
    then check_path agent refusal c
    else pass

module _ (agent : BaseAgent) (refusal : Json → Text) (checks_path : Bool)
    (wrong c : StreamChunk) where
  pub allowed-pass :
      (checks_path ≡ true) ⊎ (agent.file_restrictions ≡ [])
      → allowed agent refusal checks_path wrong c ≡ pass
      → is_within agent c ≡ true
  allowed-pass free h = elim (Bool-cases (is_allowed agent c)) [
    | inl e ↦ elim (Bool-cases (calls c "write_file")) [
      | inl e' ↦ elim (Bool-cases checks_path) [
        | inl e'' ↦ ground (arith, e, e', e'', h, check_path-pass agent refusal c)
        | inr e'' ↦ ground (arith, e, e', e'', h, free)
      ]
      | inr e' ↦ ground (arith, e, e', h)
    ]
    | inr e ↦ ground (arith, e, h)
  ]

  pub allowed-stop :
      (d : StreamChunk)
      → is_tool_call wrong ≡ false
      → allowed agent refusal checks_path wrong c ≡ stop d
      → is_tool_call d ≡ false
  allowed-stop d calm h = elim (Bool-cases (is_allowed agent c)) [
    | inl e ↦ elim (Bool-cases (checks_path && calls c "write_file")) [
      | inl e' ↦ check_path-stop agent refusal c d (ground (arith, e, e', h))
      | inr e' ↦ ground (arith, e, e', h)
    ]
    | inr e ↦ ground (arith, e, h, calm)
  ]

-- The two shapes of the checks, with and without `switch_mode`.
abbrev pub plain : ChunkVerdict → StreamChunk → ChunkVerdict
plain rest c = if not (is_tool_call c) then pass else rest

abbrev pub switching : (Json → Text) → ChunkVerdict → StreamChunk → ChunkVerdict
switching show rest c =
    if not (is_tool_call c) then pass else if calls c "switch_mode" then ask_switch show c else rest

module _ (show : Json → Text) (agent : BaseAgent) (rest : ChunkVerdict) (c : StreamChunk) where
  pub plain-pass :
      (rest ≡ pass → is_within agent c ≡ true) → plain rest c ≡ pass → is_within agent c ≡ true
  plain-pass within h = elim (Bool-cases (is_tool_call c)) [
    | inl e ↦ within (ground (arith, e, h))
    | inr e ↦ ground (arith, e)
  ]

  pub switching-pass :
      (rest ≡ pass → is_within agent c ≡ true)
      → switching show rest c ≡ pass
      → is_within agent c ≡ true
  switching-pass within h = elim (Bool-cases (is_tool_call c)) [
    | inl e ↦ elim (Bool-cases (calls c "switch_mode")) [
      | inl e' ↦
          let never : ask_switch show c ≡ pass = ground (arith, e, e', h) in
          elim (ask_switch-pass show c never) [ ]
      | inr e' ↦ within (ground (arith, e, e', h))
    ]
    | inr e ↦ ground (arith, e)
  ]

  pub plain-stop :
      (d : StreamChunk)
      → (rest ≡ stop d → is_tool_call d ≡ false)
      → plain rest c ≡ stop d
      → is_tool_call d ≡ false
  plain-stop d calm h = elim (Bool-cases (is_tool_call c)) [
    | inl e ↦ calm (ground (arith, e, h))
    | inr e ↦ ground (arith, e, h)
  ]

  pub switching-stop :
      (d : StreamChunk)
      → (rest ≡ stop d → is_tool_call d ≡ false)
      → switching show rest c ≡ stop d
      → is_tool_call d ≡ false
  switching-stop d calm h = elim (Bool-cases (is_tool_call c)) [
    | inl e ↦ elim (Bool-cases (calls c "switch_mode")) [
      | inl e' ↦ ask_switch-stop show c d (ground (arith, e, e', h))
      | inr e' ↦ calm (ground (arith, e, e', h))
    ]
    | inr e ↦ ground (arith, e, h)
  ]
