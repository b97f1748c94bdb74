-- ===== src/Models/Load.antt =====
-- `model_validate` of the models on documents: the parts that the models share. A result of none
-- stands for pydantic's `ValidationError`. A mapping's keys are texts, each once.
use dng_preflight.Base.{
  ℕ, String, Bool, true, false, Option, none, some, List, [], ◌∷◌, Dict, if◌then◌else◌, truthy,
}
use dng_preflight.Models.Snapshot.{Probed, detected, not_detected}
use dng_preflight.Models.Document.{
  Value, null, boolean, text, sequence, mapping, Items, nil, item, Members, end, member, find, only,
  Scalars,
}
pub mod Snapshot
pub mod Answers

infixl 5 ◌>>=◌
abbrev pub ◌>>=◌ : {A B : Type 0} → Option A → (A → Option B) → Option B
none >>= next = none
some a >>= next = next a

-- The fields of a model that forbids others.
abbrev pub fields : List String → Value → Option Members
fields names (mapping members) = if only names members then some members else none
fields names _ = none

module _ {A : Type 0} (load : Value → Option A) where
  -- A field, without or with a default.
  abbrev pub field : Members → String → Option A
  field members name = find name members >>= load

  abbrev pub field_or : A → Members → String → Option A
  field_or default members name = elim (find name members) [ none ↦ some default | some v ↦ load v ]

  -- `T | None`
  abbrev pub optional : Value → Option (Option A)
  optional null = some none
  optional v = load v >>= λ a. some (some a)

  abbrev pub load_items : Items → Option (List A)
  load_items nil = some []
  load_items (item v items) = load v >>= λ a. load_items items >>= λ rest. some (a ∷ rest)

  -- `list[T]`
  abbrev pub list_of : Value → Option (List A)
  list_of (sequence items) = load_items items
  list_of _ = none

  abbrev pub load_members : Members → Option (Dict A)
  load_members end = some []
  load_members (member k v members) =
      load v >>= λ a. load_members members >>= λ rest. some ((k, a) ∷ rest)

  -- `dict[str, T]`
  abbrev pub dict_of : Value → Option (Dict A)
  dict_of (mapping members) = load_members members
  dict_of _ = none

-- A `Literal[True]` or `Literal[False]`.
abbrev pub literal : Bool → Value → Option (Unit {0})
literal true (boolean true) = some tt
literal false (boolean false) = some tt
literal _ _ = none

-- The field `detected` of a model on its own.
abbrev pub detected_field : Bool → Members → Option (Unit {0})
detected_field expected members = field_or (literal expected) tt members "detected"

abbrev pub boolean_tag : Option Value → Option Bool
boolean_tag (some (boolean b)) = some b
boolean_tag _ = none

abbrev pub text_tag : Option Value → Option String
text_tag (some (text s)) = some s
text_tag _ = none

-- The value of the discriminating field.
abbrev pub tag : String → Value → Option Value
tag name (mapping members) = find name members
tag name _ = none

-- The text of a member of an enumeration.
abbrev pub member_of : {A : Type 0} → (String → Option A) → Value → Option A
member_of named (text s) = named s
member_of named _ = none

module _ (scalars : Scalars) where
  open scalars use {string_of}

  unfoldable pub load_not_detected : Value → Option String
  load_not_detected v = do
    members ← fields ("detected" ∷ "reason" ∷ []) v
    tt ← detected_field false members
    field string_of members "reason"

  -- A union with `NotDetected`, told apart by the field `detected`, which must be there.
  abbrev pub probed : {A : Type 0} → (Value → Option A) → Value → Option (Probed A)
  probed load v = elim (boolean_tag (tag "detected" v)) [
    | some true ↦ load v >>= λ a. some (detected a)
    | some false ↦ load_not_detected v >>= λ reason. some (not_detected reason)
    | none ↦ none
  ]
