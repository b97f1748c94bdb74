-- ===== src/Base/Float.antt =====
-- Python's `float`: every double is a sign and a dyadic fraction, an infinity, or not a number.
use dng_preflight.Base.{ℕ, ◌*◌, ◌^◌, Bool, false, leb}

-- `finite negative m k` is m / 2^k, negated if `negative`.
pub data Float : Type 0 where
  finite : Bool → ℕ → ℕ → Float
  infinite : Bool → Float
  nan : Float

-- `abs(x) <= bound` for a whole bound. Each comparison with not-a-number is false.
unfoldable pub abs_le : Float → ℕ → Bool
abs_le (finite _ m k) bound = leb m (bound * 2 ^ k)
abs_le (infinite _) bound = false
abs_le nan bound = false

-- Not an infinity, and not not-a-number.
abbrev pub IsNumber : Float → Type 0
IsNumber (finite _ _ _) = Unit
IsNumber (infinite _) = ⊥
IsNumber nan = ⊥
