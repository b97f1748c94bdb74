-- ===== src/Base/Text.antt =====
-- Python's operations on `str` that the program uses, by recursion on the characters.
use Prim.Native.Char.{Char, code}
use Prim.Native.String
use Prim.Native.String.{String, [], ◌∷◌}
use mathlib.Core.Path.{◌≡◌, refl}
use mathlib.Core.Bool.{Bool, true, false, ◌&&◌, ◌||◌}
use mathlib.Core.Option.{Option, none, some}
use mathlib.Core.List.{List, [], ◌∷◌}
use dng_preflight.Base.Tests.{leb, eqb, if◌then◌else◌}

abbrev pub same_char : Char → Char → Bool
same_char c d = eqb (code c) (code d)

abbrev pub is_empty : String → Bool
is_empty [] = true
is_empty (c ∷ s) = false

-- `str.isspace` of one character.
unfoldable pub is_space : Char → Bool
is_space c =
    let n = code c in
    leb 9 n && leb n 13
    || leb 28 n && leb n 32
    || eqb n 0x85
    || eqb n 0xa0
    || eqb n 0x1680
    || leb 0x2000 n && leb n 0x200a
    || eqb n 0x2028
    || eqb n 0x2029
    || eqb n 0x202f
    || eqb n 0x205f
    || eqb n 0x3000

unfoldable pub lstrip : String → String
lstrip [] = ""
lstrip (c ∷ s) = let rest = lstrip s in if is_space c then rest else c ∷ s

unfoldable pub rstrip : String → String
rstrip [] = ""
rstrip (c ∷ s) = let rest = rstrip s in if is_space c && is_empty rest then "" else c ∷ rest

unfoldable pub strip : String → String
unfolding lstrip rstrip is_space
strip s = lstrip (rstrip s)

-- `c in s`
unfoldable pub has_char : Char → String → Bool
has_char c [] = false
has_char c (d ∷ s) = same_char d c || has_char c s

-- `s.split(c, 1)`: the parts around the first `c`, or none without it.
unfoldable pub split_once : Char → String → Option (String × String)
split_once c [] = none
split_once c (d ∷ s) =
    let later = split_once c s in
    if same_char d c
    then some ("", s)
    else elim later [ none ↦ none | some (before, after) ↦ some (d ∷ before, after) ]

abbrev cons_head : Char → List String → List String
cons_head c [] = (c ∷ "") ∷ []
cons_head c (s ∷ ss) = (c ∷ s) ∷ ss

-- `s.split(c)`
unfoldable pub split : Char → String → List String
split c [] = "" ∷ []
split c (d ∷ s) = let rest = split c s in if same_char d c then "" ∷ rest else cons_head d rest

-- `sep.join(parts)`
unfoldable pub join : String → List String → String
join sep [] = ""
join sep (s ∷ []) = s
join sep (s ∷ (t ∷ ss)) = let rest = join sep (t ∷ ss) in String.◌++◌ s (String.◌++◌ sep rest)

-- A line boundary of `str.splitlines`, other than a carriage return.
is_break : Char → Bool
is_break c =
    let n = code c in
    leb 10 n && leb n 12 || leb 28 n && leb n 30 || eqb n 0x85 || eqb n 0x2028 || eqb n 0x2029

-- `s.splitlines()`; after a carriage return, a newline is part of the same boundary.
lines_from : Bool → String → List String
lines_from returned [] = []
lines_from returned (c ∷ s) =
    let rest = lines_from false s in
    let rest_returned = lines_from true s in
    if eqb (code c) 13
    then "" ∷ rest_returned
    else if returned && eqb (code c) 10
    then rest
    else if is_break c
    then "" ∷ rest
    else cons_head c rest

unfoldable pub splitlines : String → List String
unfolding lines_from is_break
splitlines s = lines_from false s

tests :
    (strip " a b\t" ≡ "a b")
    × (splitlines "a\r\nb\n\nc\n" ≡ "a" ∷ "b" ∷ "" ∷ "c" ∷ [])
    × (split "." "3.3.0" ≡ "3" ∷ "3" ∷ "0" ∷ [])
unfolding strip split splitlines
tests = (refl, refl, refl)
