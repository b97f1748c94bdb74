-- ===== src/Interview/Hostname.antt =====
-- What the validator of the public hostname accepts, character by character.
use Prim.Native.Char.{Char, code}
use Prim.Native.String.{[], ◌∷◌}
use dng_preflight.Base.{◌≡◌, ◌↔◌, ◌⊎◌, String, true, false, ok, arith}
use dng_preflight.Base.Text.{is_space, is_empty, lstrip, rstrip, strip, has_char}
use dng_preflight.Interview.Questions.{text, validate_hostname}

-- Some character is no whitespace.
abbrev pub IsNamed : String → Type 0
IsNamed [] = ⊥
IsNamed (c ∷ s) = (is_space c ≡ false) ⊎ IsNamed s

abbrev pub Holds : Char → String → Type 0
Holds c [] = ⊥
Holds c (d ∷ s) = (code d ≡ code c) ⊎ Holds c s

lstrip-IsNamed_iff : (s : String) → (is_empty (lstrip s) ≡ false) ↔ IsNamed s
unfolding lstrip
lstrip-IsNamed_iff [] = (λ h. cc, λ h. absurd h)
lstrip-IsNamed_iff (c ∷ s) = ground (arith, lstrip-IsNamed_iff s)

rstrip-IsNamed_iff : (s : String) → IsNamed (rstrip s) ↔ IsNamed s
unfolding rstrip
rstrip-IsNamed_iff [] = (λ h. h, λ h. h)
rstrip-IsNamed_iff (c ∷ s) = ground (arith, rstrip-IsNamed_iff s)

has_char_iff : (c : Char) (s : String) → (has_char c s ≡ true) ↔ Holds c s
unfolding has_char
has_char_iff c [] = (λ h. cc, λ h. absurd h)
has_char_iff c (d ∷ s) = ground (arith, has_char_iff c s)

strip-IsNamed_iff : (s : String) → (is_empty (strip s) ≡ false) ↔ IsNamed s
unfolding strip
strip-IsNamed_iff s = ground (arith, lstrip-IsNamed_iff (rstrip s), rstrip-IsNamed_iff s)

-- A hostname is accepted exactly where it has a character that is no whitespace, and a dot.
pub validate_hostname_iff :
    (s : String) → (validate_hostname (text s) ≡ ok tt) ↔ (IsNamed s × Holds "." s)
unfolding validate_hostname
validate_hostname_iff s = ground (arith, strip-IsNamed_iff s, has_char_iff "." s)
