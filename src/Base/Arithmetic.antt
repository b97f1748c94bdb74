-- ===== src/Base/Arithmetic.antt =====
-- Arithmetic on Python's `float`: exact on dyadic fractions, then rounded to 53 bits, ties to even.
-- Overflow to infinity and subnormal numbers are left out.
use native.Mathlib.Nat.{pow-succ', pow-le-pow_right, div-div-eq-div-mul, div-add-mod'}
use dng_preflight.Base.{
  ℕ, zero, suc, ◌+◌, ◌-◌, ◌*◌, ◌/◌, ◌%◌, ◌^◌, ◌≤◌, ◌<◌, ◌≡◌, refl, Bool, true, false, not, ltb, leb,
  arith, if◌then◌else◌, inl, inr, Bool-cases,
}
use dng_preflight.Base.Float.{Float, finite, infinite, nan, IsNumber}
use dng_preflight.Base.Int.{ℤ, pos, negsuc}

-- The bits of a whole number beyond 53, with fuel.
unfoldable pub excess : ℕ → ℕ → ℕ
excess zero m = 0
excess (suc fuel) m = elim (ltb m (2 ^ 53)) [ true ↦ 0 | false ↦ suc (excess fuel (m / 2)) ]

-- `m / unit` to the nearest whole number, ties to even.
unfoldable pub nearest : (m unit : ℕ) → ℕ
nearest m unit =
    let q = m / unit in
    let r = m % unit in
    if ltb (r + r) unit then q else if ltb unit (r + r) then q + 1 else q + q % 2

unfoldable pub rounded : ℕ → ℕ
unfolding excess nearest
rounded m = let unit = 2 ^ excess m m in nearest m unit * unit

-- `float(n)` of a whole number.
unfoldable pub of_int : ℤ → Float
unfolding rounded
of_int (pos n) = finite false (rounded n) 0
of_int (negsuc n) = finite true (rounded (n + 1)) 0

-- The difference of two numerators, as a sign and a magnitude.
abbrev difference : ℕ → ℕ → ℕ → Float
unfolding rounded
difference a b k =
    if leb b a then finite false (rounded (a - b)) k else finite true (rounded (b - a)) k

abbrev same_sign : Bool → Bool → Bool
same_sign true b = b
same_sign false b = not b

abbrev sum_over : Bool → ℕ → Bool → ℕ → ℕ → Float
unfolding rounded
sum_over negative a other b k =
    if same_sign negative other
    then finite negative (rounded (a + b)) k
    else if negative
    then difference b a k
    else difference a b k

-- `x + y`, over the larger of the two denominators.
unfoldable pub add : Float → Float → Float
unfolding sum_over
add (finite s m k) (finite t n l) =
    if leb l k then sum_over s m t (n * 2 ^ (k - l)) k else sum_over s (m * 2 ^ (l - k)) t n l
add (finite s m k) (infinite t) = infinite t
add (finite s m k) nan = nan
add (infinite s) (finite t n l) = infinite s
add (infinite s) (infinite t) = if same_sign s t then infinite s else nan
add (infinite s) nan = nan
add nan y = nan

abbrev negate : Float → Float
negate (finite s m k) = finite (not s) m k
negate (infinite s) = infinite (not s)
negate nan = nan

-- `x - y`
unfoldable pub subtract : Float → Float → Float
unfolding add
subtract x y = add x (negate y)

-- `x / 2 ** n`, which is exact.
unfoldable pub shift_down : ℕ → Float → Float
shift_down n (finite s m k) = finite s m (k + n)
shift_down n (infinite s) = infinite s
shift_down n nan = nan

-- The results on numbers are numbers.
difference-IsNumber : (a b k : ℕ) → IsNumber (difference a b k)
unfolding difference
difference-IsNumber a b k = elim (Bool-cases (leb b a)) [ inl e ↦ rw e tt | inr e ↦ rw e tt ]

sum_over-IsNumber :
    (negative : Bool) (a : ℕ) (other : Bool) (b k : ℕ) → IsNumber (sum_over negative a other b k)
unfolding sum_over
sum_over-IsNumber true a true b k = tt
sum_over-IsNumber true a false b k = difference-IsNumber b a k
sum_over-IsNumber false a true b k = difference-IsNumber a b k
sum_over-IsNumber false a false b k = tt

pub add-IsNumber : (x y : Float) → IsNumber x → IsNumber y → IsNumber (add x y)
unfolding add
add-IsNumber (finite s m k) (finite t n l) hx hy = elim (Bool-cases (leb l k)) [
  | inl e ↦ rw e (sum_over-IsNumber s m t (n * 2 ^ (k - l)) k)
  | inr e ↦ rw e (sum_over-IsNumber s (m * 2 ^ (l - k)) t n l)
]
add-IsNumber (finite s m k) (infinite t) hx hy = absurd hy
add-IsNumber (finite s m k) nan hx hy = absurd hy
add-IsNumber (infinite s) y hx hy = absurd hx
add-IsNumber nan y hx hy = absurd hx

negate-IsNumber : (x : Float) → IsNumber x → IsNumber (negate x)
negate-IsNumber (finite s m k) h = tt
negate-IsNumber (infinite s) h = absurd h
negate-IsNumber nan h = absurd h

pub subtract-IsNumber : (x y : Float) → IsNumber x → IsNumber y → IsNumber (subtract x y)
unfolding subtract
subtract-IsNumber x y hx hy = add-IsNumber x (negate y) hx (negate-IsNumber y hy)

pub shift_down-IsNumber : (n : ℕ) (x : Float) → IsNumber x → IsNumber (shift_down n x)
unfolding shift_down
shift_down-IsNumber n (finite s m k) h = tt
shift_down-IsNumber n (infinite s) h = absurd h
shift_down-IsNumber n nan h = absurd h

pub of_int-IsNumber : (n : ℤ) → IsNumber (of_int n)
unfolding of_int
of_int-IsNumber (pos n) = tt
of_int-IsNumber (negsuc n) = tt

module _ (f m : ℕ) where
  excess_small : ltb m (2 ^ 53) ≡ true → excess (suc f) m ≡ 0
  unfolding excess
  excess_small h = rw (h, excess)

  excess_large : ltb m (2 ^ 53) ≡ false → excess (suc f) m ≡ suc (excess f (m / 2))
  unfolding excess
  excess_large h = rw (h, excess)

-- With the number itself for fuel, at most 53 bits are left.
excess-enough : (f m : ℕ) → m ≤ f → m / 2 ^ excess f m < 2 ^ 53
unfolding excess
excess-enough zero m h = omega arith
excess-enough (suc f) m h = elim (Bool-cases (ltb m (2 ^ 53))) [
  | inl small ↦ rw (excess_small f m small) (ground arith)
  | inr large ↦
      rw
        (
          excess_large f m large,
          pow-succ' 2 (excess f (m / 2)),
          ← div-div-eq-div-mul m 2 (2 ^ excess f (m / 2)),
        )
        (excess-enough f (m / 2) (omega arith))
]

excess-le : (f m n : ℕ) → m < 2 ^ 53 * 2 ^ n → excess f m ≤ n
unfolding excess
excess-le zero m n h = omega arith
excess-le (suc f) m zero h = rw (excess_small f m (ground arith)) (omega arith)
excess-le (suc f) m (suc n) h = elim (Bool-cases (ltb m (2 ^ 53))) [
  | inl small ↦ rw (excess_small f m small) (omega arith)
  | inr large ↦ rw (excess_large f m large) (omega (arith, excess-le f (m / 2) n (omega arith)))
]

-- The nearest multiple is at most half a unit away.
pub nearest-near :
    (m unit : ℕ)
    → 0 < unit
    → (2 * (nearest m unit * unit) ≤ 2 * m + unit) × (2 * m ≤ 2 * (nearest m unit * unit) + unit)
unfolding nearest
nearest-near m unit h = grind (arith, div-add-mod' m unit)

pow-pos : (e : ℕ) → 0 < 2 ^ e
pow-pos zero = omega arith
pow-pos (suc e) = omega (arith, pow-pos e)

-- A whole number that fits 53 + n bits is at most half of 2 ^ n away from its rounding.
pub rounded-near :
    (m n : ℕ)
    → m < 2 ^ 53 * 2 ^ n
    → (2 * rounded m ≤ 2 * m + 2 ^ n) × (2 * m ≤ 2 * rounded m + 2 ^ n)
unfolding rounded
rounded-near m n h =
    let e = excess m m in
    let small : 2 ^ e ≤ 2 ^ n = pow-le-pow_right {n = 2} (omega arith) (excess-le m m n h) in
    omega (arith, nearest-near m (2 ^ e) (pow-pos e))

-- A whole number of at most 53 bits is not changed.
pub rounded_small : (m : ℕ) → m < 2 ^ 53 → rounded m ≡ m
unfolding rounded
rounded_small m h =
    let e : excess m m ≡ 0 = omega (arith, excess-le m m 0 (omega arith)) in rw e (ground arith)

test : rounded (2 ^ 60 + 2 ^ 7) ≡ 2 ^ 60
unfolding rounded
test = refl

test2 : rounded (2 ^ 60 + 2 ^ 7 + 1) ≡ 2 ^ 60 + 2 ^ 8
unfolding rounded
test2 = refl
