-- ===== src/Base/Words.antt =====
-- More of Python's `str`, for what a host's commands and files say: prefixes, parts and words.
use Prim.Native.Char.{Char, code}
use Prim.Native.String.{[], ◌∷◌, slice}
use dng_preflight.Base.{
  ◌+◌, ◌-◌, ◌≡◌, refl, String, ◌<>◌, Bool, true, false, ◌&&◌, ◌||◌, List, [], ◌∷◌, leb,
  if◌then◌else◌,
}
use dng_preflight.Base.Text.{same_char, is_space, is_empty}

-- `s.startswith(prefix)`
unfoldable pub starts_with : (prefix s : String) → Bool
starts_with [] s = true
starts_with (c ∷ prefix) [] = false
starts_with (c ∷ prefix) (d ∷ s) = same_char c d && starts_with prefix s

-- `part in s`
unfoldable pub has_text : (part s : String) → Bool
unfolding starts_with
has_text part [] = is_empty part
has_text part (c ∷ s) = starts_with part (c ∷ s) || has_text part s

-- `s.lower()`, of the ASCII letters.
unfoldable pub lower : String → String
lower [] = ""
lower (c ∷ s) =
    let n = code c in
    let rest = lower s in
    if leb b'A' n && leb n b'Z'
    then slice "abcdefghijklmnopqrstuvwxyz" (n - b'A') (n - b'A' + 1) <> rest
    else c ∷ rest

-- Nothing, or a space first.
abbrev starts_apart : String → Bool
unfolding is_space
starts_apart [] = true
starts_apart (c ∷ s) = is_space c

abbrev onto_first : Char → List String → List String
onto_first c [] = (c ∷ "") ∷ []
onto_first c (w ∷ ws) = (c ∷ w) ∷ ws

-- `s.split()`
unfoldable pub words : String → List String
unfolding is_space starts_apart
words [] = []
words (c ∷ s) =
    let rest = words s in
    if is_space c then rest else if starts_apart s then (c ∷ "") ∷ rest else onto_first c rest

-- `s.lstrip(c)`, `s.rstrip(c)` and `s.strip(c)` of one character.
unfoldable pub lstrip_of : Char → String → String
lstrip_of c [] = ""
lstrip_of c (d ∷ s) = let rest = lstrip_of c s in if same_char d c then rest else d ∷ s

unfoldable pub rstrip_of : Char → String → String
rstrip_of c [] = ""
rstrip_of c (d ∷ s) =
    let rest = rstrip_of c s in if same_char d c && is_empty rest then "" else d ∷ rest

unfoldable pub strip_of : Char → String → String
unfolding lstrip_of rstrip_of
strip_of c s = lstrip_of c (rstrip_of c s)

tests :
    (words "  eth0 00000000\t0 " ≡ "eth0" ∷ "00000000" ∷ "0" ∷ [])
    × (has_text "NTP=yes" "CanNTP=yes\nNTP=yes" ≡ true)
    × (lower "[Realms]" ≡ "[realms]")
    × (strip_of "\"" "\"24.04\"" ≡ "24.04")
unfolding words starts_apart has_text lower strip_of
tests = (refl, refl, refl, refl)
