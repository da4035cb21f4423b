-- ===== src/Prelude/Json.antt =====
-- The values of JSON, which the program passes through untyped dictionaries (`Dict[str, Any]`).
use Prim.Native.String.{String}
use mathlib.Core.Bool.{Bool}
use mathlib.Core.Option.{Option, none, some}
use mathlib.Core.List.{[], ◌∷◌}
use package.text.Mathlib.Text.{◌==◌ as str_eq}
use codelab_ai_service.Prelude.Tests.{if◌then◌else◌}
use codelab_ai_service.Prelude.Maps.{Dict}
use codelab_ai_service.Prelude.Int.{ℤ}

mutual
  pub data Json : Type 0 where
    null : Json
    bool : Bool → Json
    num : ℤ → Json
    text : String → Json
    array : Items → Json
    object : Members → Json

  pub data Items : Type 0 where
    no_items : Items
    item : Json → Items → Items

  pub data Members : Type 0 where
    no_members : Members
    member : String → Json → Members → Members

-- The object of a dictionary, and its entry for a key: `none` when there is none, or no object.
abbrev members_of : Dict Json → Members
members_of [] = no_members
members_of ((k, v) ∷ d) = member k v (members_of d)

abbrev pub object_of : Dict Json → Json
object_of d = object (members_of d)

abbrev find_member : String → Members → Option Json
find_member key no_members = none
find_member key (member k v ms) = if str_eq k key then some v else find_member key ms

abbrev pub get_member : String → Json → Option Json
get_member key (object ms) = find_member key ms
get_member key _ = none
