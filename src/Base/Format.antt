-- ===== src/Base/Format.antt =====
-- Python's conversions to text that the messages use: `str` of a count, `repr`, and `{:+.1f}`.
use Prim.Native.Char.{Char, code}
use Prim.Native.String.{[], ◌∷◌, slice}
use dng_preflight.Base.{
  ℕ, zero, suc, ◌+◌, ◌*◌, ◌/◌, ◌%◌, ◌^◌, ◌<◌, ◌≡◌, refl, String, ◌<>◌, Bool, true, false, not, ◌&&◌,
  ◌||◌, Option, none, some, arith, leb, ltb, eqb, if◌then◌else◌,
}
use dng_preflight.Base.Text.{has_char, same_char}
use dng_preflight.Base.Float.{Float, finite, infinite, nan}

-- One digit, up to base 16.
digit : ℕ → String
digit n = slice "0123456789abcdef" n (n + 1)

-- Decimal digits; the fuel bounds the number of digits.
show_from : ℕ → ℕ → String
show_from zero n = ""
show_from (suc fuel) n =
    let longer = show_from fuel (n / 10) <> digit (n % 10) in if ltb n 10 then digit n else longer

-- A number is above its count of digits, less one.
unfoldable pub show : ℕ → String
unfolding show_from digit
show n = show_from (suc n) n

-- Any fuel above the number gives the same digits: `show` does not run out.
show_from_fuel : (f g n : ℕ) → n < f → n < g → show_from f n ≡ show_from g n
unfolding show_from
show_from_fuel zero g n h k = elim h [ ]
show_from_fuel (suc f) zero n h k = elim k [ ]
show_from_fuel (suc f) (suc g) n h k = ground (arith, show_from_fuel f g (n / 10))

-- One character inside a `repr`. All characters above U+00AD are taken for printable.
escape : Char → Char → String
unfolding digit
escape quote c =
    let n = code c in
    if same_char c quote || eqb n b'\\'
    then "\\" <> (c ∷ "")
    else if eqb n 9
    then "\\t"
    else if eqb n 10
    then "\\n"
    else if eqb n 13
    then "\\r"
    else if ltb n 32 || leb 127 n && leb n 160 || eqb n 173
    then "\\x" <> (digit (n / 16) <> digit (n % 16))
    else (c ∷ "")

escape_all : Char → String → String
escape_all quote [] = ""
escape_all quote (c ∷ s) = escape quote c <> escape_all quote s

-- `repr` of a `str`: double quotes where the text has single quotes only.
unfoldable pub repr : String → String
unfolding escape escape_all has_char digit
repr s =
    if has_char "'" s && not (has_char "\"" s)
    then "\"" <> (escape_all "\"" s <> "\"")
    else "'" <> (escape_all "'" s <> "'")

unfoldable pub repr_option : Option String → String
unfolding repr
repr_option none = "None"
repr_option (some s) = repr s

-- n / d to the nearest whole number, ties to even.
unfoldable pub round_half_even : ℕ → ℕ → ℕ
round_half_even n d =
    let q = n / d in
    let twice = 2 * (n % d) in if ltb twice d || eqb twice d && eqb (q % 2) 0 then q else q + 1

sign : Bool → String
sign true = "-"
sign false = "+"

-- `f"{x:+.1f}"`
unfoldable pub format_signed : Float → String
unfolding sign show round_half_even
format_signed (finite negative m k) =
    let tenths = round_half_even (10 * m) (2 ^ k) in
    sign negative <> (show (tenths / 10) <> ("." <> show (tenths % 10)))
format_signed (infinite negative) = sign negative <> "inf"
format_signed nan = "+nan"

tests :
    (show 1203 ≡ "1203")
    × (repr "it's\n" ≡ "\"it's\\n\"")
    × (format_signed (finite true 181 2) ≡ "-45.2")
    × (format_signed (finite false 187 2) ≡ "+46.8")
unfolding show repr format_signed
tests = (refl, refl, refl, refl)
