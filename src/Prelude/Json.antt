-- ===== src/Prelude/Json.antt =====
-- JSON values, as `JsonValue` columns hold them.
use mathlib.Core.Bool.{Bool, false, ◌||◌}
use claim_it_all.Prelude.Text.{Text, text_eq}

-- A number is the text of its literal. The fields of an object stand in their order.
mutual
  pub data Json : Type 0 where
    null : Json
    bool : Bool → Json
    number : Text → Json
    string : Text → Json
    array : Items → Json
    object : Fields → Json

  pub data Items : Type 0 where
    nil : Items
    cons : Json → Items → Items

  pub data Fields : Type 0 where
    end : Fields
    field : Text → Json → Fields → Fields

-- `key in object`
abbrev pub has_field : Text → Fields → Bool
has_field key end = false
has_field key (field k v fs) = text_eq k key || has_field key fs
