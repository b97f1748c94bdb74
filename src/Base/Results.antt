-- ===== src/Base/Results.antt =====
-- Results of code that raises.
use Prim.Native.Nat.{ℕ}
use Prim.Native.String.{String}
use mathlib.Core.List.{List}
use mathlib.Core.Path.{◌≡◌, refl, ap}
use mathlib.Core.Logic.{◌⊎◌, inl, inr}

-- The exceptions that the program raises or lets through: the first two are its own
-- `raise`s of `ValueError`, the third comes from a model's validation, the others from the language, click and asyncio; `sys.exit` raises too.
pub data Error : Type 0 where
  value_error : String → Error
  not_one_of : (field : String) (allowed : List String) → Error
  validation_error : (model : String) → Error
  runtime_error : String → Error
  usage_error : String → Error
  timeout_error : Error
  os_error : Error
  index_error : Error
  unicode_error : Error
  struct_error : Error
  exception_group : Error
  system_exit : (code : ℕ) → Error

-- A value, or the exception that was raised in its place.
pub data Result {ℓ} (Value : Type ℓ) : Type ℓ where
  err : Error → Result Value
  ok : Value → Result Value

module _ {ℓ κ} {From : Type ℓ} {To : Type κ} where
  abbrev pub map_result : (From → To) → Result From → Result To
  map_result change (err e) = err e
  map_result change (ok value) = ok (change value)

  infixl 5 ◌>>=◌
  abbrev pub ◌>>=◌ : Result From → (From → Result To) → Result To
  ◌>>=◌ (err e) next = err e
  ◌>>=◌ (ok value) next = next value

module _ {ℓ} {To : Type ℓ} where
  infixl 5 ◌>>◌
  abbrev pub ◌>>◌ : Result (Unit {0}) → Result To → Result To
  ◌>>◌ (err e) next = err e
  ◌>>◌ (ok done) next = next

abbrev value_or {ℓ} : {A : Type ℓ} → A → Result A → A
value_or fallback (ok value) = value
value_or fallback (err e) = fallback

pub ok-injective {ℓ} : {A : Type ℓ} (a b : A) → ok a ≡ ok b → a ≡ b
ok-injective a b h = ap (value_or a) h

abbrev error_or {ℓ} : {A : Type ℓ} → Error → Result A → Error
error_or d (ok a) = d
error_or d (err e) = e

pub err-injective {ℓ} : {A : Type ℓ} (d e : Error) → ◌≡◌ {A = Result A} (err d) (err e) → d ≡ e
err-injective d e h = ap (error_or d) h

pub Result-cases {ℓ} :
    {A : Type ℓ} (r : Result A) → ((a : A) × (r ≡ ok a)) ⊎ ((e : Error) × (r ≡ err e))
Result-cases (ok a) = inl (a, refl)
Result-cases (err e) = inr (e, refl)

-- Inversion of a sequence that succeeds.
pub bind-eq-ok {ℓ κ} :
    {A : Type ℓ} {B : Type κ} (r : Result A) (f : A → Result B) {b : B}
    → (r >>= f) ≡ ok b
    → (a : A) × (r ≡ ok a) × (f a ≡ ok b)
bind-eq-ok (ok a) f h = (a, refl, h)
bind-eq-ok (err e) f h = cc h

pub then-eq-ok {ℓ} :
    {B : Type ℓ} (r : Result (Unit {0})) (next : Result B) {b : B}
    → (r >> next) ≡ ok b
    → next ≡ ok b
then-eq-ok (ok done) next h = h
then-eq-ok (err e) next h = cc h
