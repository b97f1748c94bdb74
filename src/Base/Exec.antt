-- ===== src/Base/Exec.antt =====
-- Code that raises and that acts on a state: the state after an exception is kept.
use dng_preflight.Base.{Result, ok, err, ◌≡◌, refl, ap, ◌∙◌}

abbrev pub Exec {ℓ κ} : Type ℓ → Type κ → Type (ℓ ⊔ κ)
Exec W A = W → Result A × W

abbrev pub pure {ℓ κ} : {W : Type ℓ} {A : Type κ} → A → Exec W A
pure a w = (ok a, w)

abbrev pub lift {ℓ κ} : {W : Type ℓ} {A : Type κ} → Result A → Exec W A
lift r w = (r, w)

abbrev pub after {ℓ κ μ} :
    {W : Type ℓ} {A : Type κ} {B : Type μ} → Result A × W → (A → Exec W B) → Result B × W
after (ok a, w) f = f a w
after (err e, w) f = (err e, w)

infixl 5 ◌>>=◌ ◌>>◌
abbrev pub ◌>>=◌ {ℓ κ μ} :
    {W : Type ℓ} {A : Type κ} {B : Type μ} → Exec W A → (A → Exec W B) → Exec W B
◌>>=◌ m f w = after (m w) f

abbrev pub ◌>>◌ {ℓ κ} : {W : Type ℓ} {B : Type κ} → Exec W (Unit {0}) → Exec W B → Exec W B
m >> k = m >>= λ _. k

-- Inversion of a sequence that succeeds.
pub after-eq-ok {ℓ κ μ} :
    {W : Type ℓ} {A : Type κ} {B : Type μ} (r : Result A × W) (f : A → Exec W B) {b : B} {w' : W}
    → after r f ≡ (ok b, w')
    → (a : A) × (w : W) × (r ≡ (ok a, w)) × (f a w ≡ (ok b, w'))
after-eq-ok (ok a, w) f h = (a, w, refl, h)
after-eq-ok (err e, w) f h = cc (ap (λ p. p.0) h)

-- A step that returns some value.
abbrev pub Returns {ℓ κ} : {W : Type ℓ} {A : Type κ} → Result A × W → Type (ℓ ⊔ κ)
Returns {W} {A} r = (a : A) × (w : W) × (r ≡ (ok a, w))

-- A sequence returns where its first part does, and the rest does with what that returned.
pub after-Returns {ℓ κ μ} :
    {W : Type ℓ} {A : Type κ} {B : Type μ} (r : Result A × W) (f : A → Exec W B)
    → Returns r
    → ((a : A) (w : W) → r ≡ (ok a, w) → Returns (f a w))
    → Returns (after r f)
after-Returns r f (a, w, h) rest = let (b, w', k) = rest a w h in (b, w', ap (λ x. after x f) h ∙ k)
