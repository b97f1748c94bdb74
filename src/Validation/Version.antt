-- ===== src/Validation/Version.antt =====
-- The version test of rule 5: `tuple(int(p) for p in text.split("."))` and its comparison.
use Prim.Native.Char.{code}
use Prim.Native.String.{[], ◌∷◌}
use mathlib.Core.Bool.{false≢true}
use dng_preflight.Base.{
  ℕ, ◌+◌, ◌-◌, ◌*◌, ◌<◌, ◌≡◌, refl, sym, ◌∙◌, ◌↔◌, inl, inr, String, Bool, true, false, ◌&&◌,
  Option, none, some, List, [], ◌∷◌, arith, leb, ltb, eqb, if◌then◌else◌, Bool-cases,
}
pub use dng_preflight.Base.Int.{ℤ, pos, negsuc}
use dng_preflight.Base.Text.{strip, split}

-- Decimal digits, with single underscores between them; `ready` after a digit.
digits_from : String → ℕ → Bool → Option ℕ
digits_from [] acc ready = if ready then some acc else none
digits_from (c ∷ s) acc ready =
    let n = code c in
    let digit = digits_from s (10 * acc + (n - b'0')) true in
    let underscore = digits_from s acc false in
    if leb b'0' n && leb n b'9' then digit else if eqb n b'_' && ready then underscore else none

abbrev negated : ℕ → ℤ
negated n = if eqb n 0 then pos 0 else negsuc (n - 1)

signed : String → Option ℤ
unfolding digits_from
signed [] = none
signed (c ∷ s) =
    if eqb (code c) b'-'
    then elim (digits_from s 0 false) [ none ↦ none | some n ↦ some (negated n) ]
    else if eqb (code c) b'+'
    then elim (digits_from s 0 false) [ none ↦ none | some n ↦ some (pos n) ]
    else elim (digits_from (c ∷ s) 0 false) [ none ↦ none | some n ↦ some (pos n) ]

-- `int(text)`, on ASCII digits; none where it raises `ValueError`.
unfoldable pub parse_int : String → Option ℤ
unfolding signed strip
parse_int text = signed (strip text)

unfoldable pub parse_all : List String → Option (List ℤ)
parse_all [] = some []
parse_all (p ∷ ps) =
    let rest = parse_all ps in
    elim (parse_int p) [
      | none ↦ none
      | some n ↦ elim rest [ none ↦ none | some ns ↦ some (n ∷ ns) ]
    ]

unfoldable pub parse_version : String → Option (List ℤ)
unfolding parse_all parse_int split
parse_version text = parse_all (split "." text)

abbrev lt_int : ℤ → ℤ → Bool
lt_int (pos a) (pos b) = ltb a b
lt_int (pos a) (negsuc b) = false
lt_int (negsuc a) (pos b) = true
lt_int (negsuc a) (negsuc b) = ltb b a

-- `xs >= ys` on tuples: the first difference decides, and a proper prefix is smaller.
unfoldable pub tuple_ge : List ℤ → List ℤ → Bool
tuple_ge xs [] = true
tuple_ge [] (y ∷ ys) = false
tuple_ge (x ∷ xs) (y ∷ ys) =
    let rest = tuple_ge xs ys in if lt_int y x then true else if lt_int x y then false else rest

abbrev pub floor : List ℤ
floor = pos 3 ∷ pos 3 ∷ pos 0 ∷ []

tests :
    (parse_version "3.10.0" ≡ some (pos 3 ∷ pos 10 ∷ pos 0 ∷ []))
    × (parse_int " -1_2 " ≡ some (negsuc 11))
    × (parse_int "3rc1" ≡ none)
    × (tuple_ge (pos 3 ∷ pos 10 ∷ pos 0 ∷ []) floor ≡ true)
    × (tuple_ge (pos 3 ∷ pos 3 ∷ []) floor ≡ false)
unfolding parse_version tuple_ge
tests = (refl, refl, refl, refl, refl)

-- The strict lexicographic order of tuples, as a relation.
abbrev pub Lt : ℤ → ℤ → Type 0
Lt (pos a) (pos b) = a < b
Lt (pos a) (negsuc b) = ⊥
Lt (negsuc a) (pos b) = Unit
Lt (negsuc a) (negsuc b) = b < a

pub data Below : List ℤ → List ℤ → Type 0 where
  shorter : {y : ℤ} {ys : List ℤ} → Below [] (y ∷ ys)
  smaller : {x y : ℤ} {xs ys : List ℤ} → Lt x y → Below (x ∷ xs) (y ∷ ys)
  later : {x y : ℤ} {xs ys : List ℤ} → x ≡ y → Below xs ys → Below (x ∷ xs) (y ∷ ys)

lt_int_iff : (x y : ℤ) → (lt_int x y ≡ true) ↔ Lt x y
lt_int_iff (pos a) (pos b) = ground arith
lt_int_iff (pos a) (negsuc b) = (λ h. cc, λ h. absurd h)
lt_int_iff (negsuc a) (pos b) = (λ _. tt, λ _. refl)
lt_int_iff (negsuc a) (negsuc b) = ground arith

lt_int_total : (x y : ℤ) → lt_int x y ≡ false → lt_int y x ≡ false → x ≡ y
lt_int_total (pos a) (pos b) h k = ground arith
lt_int_total (pos a) (negsuc b) h k = cc
lt_int_total (negsuc a) (pos b) h k = cc
lt_int_total (negsuc a) (negsuc b) h k = ground arith

lt_int_irrefl : (x : ℤ) → lt_int x x ≡ false
lt_int_irrefl (pos a) = ground arith
lt_int_irrefl (negsuc a) = ground arith

lt_int_asymm : (x y : ℤ) → lt_int x y ≡ true → lt_int y x ≡ false
lt_int_asymm (pos a) (pos b) h = ground arith
lt_int_asymm (pos a) (negsuc b) h = cc
lt_int_asymm (negsuc a) (pos b) h = refl
lt_int_asymm (negsuc a) (negsuc b) h = ground arith

tuple_ge-Below : {xs ys : List ℤ} → Below xs ys → tuple_ge xs ys ≡ false
unfolding tuple_ge
tuple_ge-Below shorter = refl
tuple_ge-Below (smaller {x} {y} h) =
    let less = (lt_int_iff x y).1 h in rw (lt_int_asymm x y less, less)
tuple_ge-Below (later {x} {y} e b) = rw (← e, lt_int_irrefl x) (tuple_ge-Below b)

Below-tuple_ge : (xs ys : List ℤ) → tuple_ge xs ys ≡ false → Below xs ys
unfolding tuple_ge
Below-tuple_ge [] [] h = cc
Below-tuple_ge (x ∷ xs) [] h = cc
Below-tuple_ge [] (y ∷ ys) h = shorter
Below-tuple_ge (x ∷ xs) (y ∷ ys) h = elim (Bool-cases (lt_int x y)) [
  | inl less ↦ smaller ((lt_int_iff x y).0 less)
  | inr not_less ↦
      later (lt_int_total x y not_less (ground arith)) (Below-tuple_ge xs ys (ground arith))
]

-- The comparison of version tuples is true exactly where the first is not below the second in the
-- lexicographic order, in which a proper prefix is below.
pub tuple_ge_iff : (xs ys : List ℤ) → (tuple_ge xs ys ≡ true) ↔ ¬ Below xs ys
tuple_ge_iff xs ys = (
  λ h b. false≢true (sym (tuple_ge-Below b) ∙ h),
  λ n. elim (Bool-cases (tuple_ge xs ys)) [
    | inl h ↦ h
    | inr h ↦ absurd (n (Below-tuple_ge xs ys h))
  ],
)
