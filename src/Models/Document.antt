-- ===== src/Models/Document.antt =====
-- The documents that `model_dump(mode="json")` gives and `model_validate` takes: what YAML and JSON
-- can hold. Scalars that are not of a field's own type are converted by pydantic, a parameter.
use dng_preflight.Base.{
  ℕ, ◌≡◌, String, Bool, true, false, Option, none, some, List, contains, ◌==◌, if◌then◌else◌,
}
use dng_preflight.Base.Float.{Float, finite}
use dng_preflight.Models.Snapshot.{Endpoint, status, failure}
use dng_preflight.Models.Answers.{Network}

mutual
  pub data Value : Type 0 where
    null : Value
    boolean : Bool → Value
    integer : ℕ → Value
    float : Float → Value
    text : String → Value
    sequence : Items → Value
    mapping : Members → Value

  pub data Items : Type 0 where
    nil : Items
    item : Value → Items → Items

  pub data Members : Type 0 where
    end : Members
    member : String → Value → Members → Members

-- The value of a key.
abbrev pub find : String → Members → Option Value
find key end = none
find key (member k v members) = if k == key then some v else find key members

-- `extra="forbid"`
abbrev pub only : List String → Members → Bool
only names end = true
only names (member k v members) =
    let rest = only names members in if contains names k then rest else false

-- pydantic's validation of a scalar, with its conversions, or none where it is an error.
pub record Scalars : Type 0 where
  pub string_of : Value → Option String
  pub boolean_of : Value → Option Bool
  pub integer_of : Value → Option ℕ
  pub float_of : Value → Option Float
  -- `IPv4Network | IPv6Network`
  pub network_of : Value → Option Network
  -- `int | str`
  pub integer_or_string_of : Value → Option Endpoint

-- A scalar of the field's own type is taken as it is.
pub record IsExact (scalars : Scalars) : Type 0 where
  pub strings : (s : String) → scalars.string_of (text s) ≡ some s
  pub booleans : (b : Bool) → scalars.boolean_of (boolean b) ≡ some b
  pub integers : (n : ℕ) → scalars.integer_of (integer n) ≡ some n
  pub floats :
      (negative : Bool) (m k : ℕ)
      → scalars.float_of (float (finite negative m k)) ≡ some (finite negative m k)
  pub codes : (n : ℕ) → scalars.integer_or_string_of (integer n) ≡ some (status n)
  pub failures : (s : String) → scalars.integer_or_string_of (text s) ≡ some (failure s)
