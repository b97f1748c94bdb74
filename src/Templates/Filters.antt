-- ===== src/Templates/Filters.antt =====
-- The filters of templates/__init__.py on texts, and that quoting for YAML can be undone.
use Prim.Native.Char.{Char, code}
use Prim.Native.String.{[], ◌∷◌}
use text.Mathlib.TextLemmas.{append_assoc, cons-append, nil-append}
use dng_preflight.Base.{
  Bool-cases, inl, inr, ℕ, zero, suc, ◌≡◌, refl, String, ◌<>◌, Bool, true, false, Option, none,
  some, List, [], ◌∷◌, map, eqb, leb, ◌&&◌, ◌||◌, if◌then◌else◌,
}
use dng_preflight.Base.Text.{join, splitlines, is_empty}

spaces : ℕ → String
spaces zero = ""
spaces (suc n) = " " <> spaces n

unfoldable pub pem_block : String → ℕ → String
unfolding spaces
pem_block content indent =
    let pad = spaces indent in
    join "\n" (map (λ line. if is_empty line then pad else pad <> line) (splitlines content))

-- `s.replace("'", "''")`
unfoldable pub double_quotes : String → String
double_quotes [] = ""
double_quotes (c ∷ s) =
    let rest = double_quotes s in if eqb (code c) b'\'' then c ∷ c ∷ rest else c ∷ rest

-- The filter on `None` or a text.
unfoldable pub yaml_str : Option String → String
unfolding double_quotes
yaml_str none = "'" <> (double_quotes "" <> "'")
yaml_str (some s) = "'" <> (double_quotes s <> "'")

unfoldable pub or_default : String → String → String
or_default value fallback = if is_empty value then fallback else value

unfoldable pub join_lines : List String → String
join_lines items = join "\n" items

abbrev prepend : Char → Option (String × String) → Option (String × String)
prepend c none = none
prepend c (some (s, rest)) = some (c ∷ s, rest)

-- A character that YAML allows within a line of a quoted scalar and keeps as it is: printable, and
-- no line break, which it would fold.
abbrev pub is_inline : Char → Bool
is_inline c =
    let n = code c in
    eqb n 9
    || leb 0x20 n && leb n 0x7e
    || leb 0xa0 n && leb n 0x2027
    || leb 0x202a n && leb n 0xd7ff
    || leb 0xe000 n && leb n 0xfefe
    || leb 0xff00 n && leb n 0xfffd
    || leb 0x10000 n

-- A text of such characters.
unfoldable pub is_line : String → Bool
is_line [] = true
is_line (c ∷ s) = is_inline c && is_line s

-- Reading a single-quoted YAML scalar on one line, after its first quote: the text, and what follows
-- the closing quote. `pending` after a quote, which closes the text unless another follows.
read_quoted : Bool → String → Option (String × String)
read_quoted true [] = some ("", "")
read_quoted false [] = none
read_quoted true (c ∷ s) =
    let rest = read_quoted false s in
    if eqb (code c) b'\'' then prepend c rest else some ("", c ∷ s)
read_quoted false (c ∷ s) =
    let closing = read_quoted true s in
    let rest = read_quoted false s in
    if eqb (code c) b'\'' then closing else if is_inline c then prepend c rest else none

-- A scalar with its first quote.
pub read_scalar : String → Option (String × String)
read_scalar [] = none
read_scalar (c ∷ s) = if eqb (code c) b'\'' then read_quoted false s else none

abbrev pub starts_quoted : String → Bool
starts_quoted [] = false
starts_quoted (c ∷ s) = eqb (code c) b'\''

read_quoted_closed :
    (rest : String) → starts_quoted rest ≡ false → read_quoted false ("'" <> rest) ≡ some ("", rest)
unfolding read_quoted
read_quoted_closed [] h = refl
read_quoted_closed (c ∷ s) h = rw (cons-append, nil-append) (rw h)

&&-split : (a b : Bool) → (a && b) ≡ true → (a ≡ true) × (b ≡ true)
&&-split true b h = (refl, h)
&&-split false b h = cc h

module _ (c : Char) (s : String) where
  double_quotes_quote : eqb (code c) b'\'' ≡ true → double_quotes (c ∷ s) ≡ c ∷ c ∷ double_quotes s
  unfolding double_quotes
  double_quotes_quote h = rw h

  double_quotes_plain : eqb (code c) b'\'' ≡ false → double_quotes (c ∷ s) ≡ c ∷ double_quotes s
  unfolding double_quotes
  double_quotes_plain h = rw h

  read_quoted_pair :
      eqb (code c) b'\'' ≡ true → read_quoted false (c ∷ c ∷ s) ≡ prepend c (read_quoted false s)
  unfolding read_quoted
  read_quoted_pair h = rw h

  read_quoted_plain :
      eqb (code c) b'\'' ≡ false
      → is_inline c ≡ true
      → read_quoted false (c ∷ s) ≡ prepend c (read_quoted false s)
  unfolding read_quoted
  read_quoted_plain h inline = rw (h, inline)

  is_line-parts : is_line (c ∷ s) ≡ true → (is_inline c ≡ true) × (is_line s ≡ true)
  unfolding is_line
  is_line-parts h = &&-split (is_inline c) (is_line s) h

double_quotes_nil : double_quotes "" ≡ ""
unfolding double_quotes
double_quotes_nil = refl

read_quoted-double_quotes :
    (s rest : String)
    → is_line s ≡ true
    → starts_quoted rest ≡ false
    → read_quoted false (double_quotes s <> ("'" <> rest)) ≡ some (s, rest)
read_quoted-double_quotes [] rest line h =
    rw (double_quotes_nil, nil-append) (read_quoted_closed rest h)
read_quoted-double_quotes (c ∷ s) rest line h = elim (Bool-cases (eqb (code c) b'\'')) [
  | inl quote ↦
      rw (double_quotes_quote c s quote, cons-append, cons-append, read_quoted_pair c _ quote)
        (rw (read_quoted-double_quotes s rest (is_line-parts c s line).1 h))
  | inr plain ↦
      rw
        (
          double_quotes_plain c s plain,
          cons-append,
          read_quoted_plain c _ plain (is_line-parts c s line).0,
        )
        (rw (read_quoted-double_quotes s rest (is_line-parts c s line).1 h))
]

-- A quoted text of printable characters on one line is one YAML scalar that reads back as the
-- text, whatever quotes it holds, where what follows does not start with a quote; the reader stops
-- at its end.
pub yaml_str-roundtrip :
    (s rest : String)
    → is_line s ≡ true
    → starts_quoted rest ≡ false
    → read_scalar (yaml_str (some s) <> rest) ≡ some (s, rest)
unfolding yaml_str read_scalar
yaml_str-roundtrip s rest line h =
    rw (append_assoc, append_assoc, cons-append, nil-append)
      (read_quoted-double_quotes s rest line h)
