-- ===== src/Base/Json.antt =====
-- `json.dumps(payload, indent=2, sort_keys=False)` on the values that the program prints.
use Prim.Native.Char.{Char, code}
use Prim.Native.String.{[], ◌∷◌, slice}
use dng_preflight.Base.{
  ℕ, ◌+◌, ◌-◌, ◌/◌, ◌%◌, ◌≡◌, refl, String, ◌<>◌, Bool, true, false, [], ◌∷◌, ltb, eqb,
  if◌then◌else◌,
}
use dng_preflight.Base.Format.{show}

mutual
  pub data Json : Type 0 where
    string : String → Json
    number : ℕ → Json
    boolean : Bool → Json
    array : Items → Json
    object : Members → Json

  pub data Items : Type 0 where
    nil : Items
    item : Json → Items → Items

  pub data Members : Type 0 where
    end : Members
    member : String → Json → Members → Members

hex : ℕ → String
hex n = slice "0123456789abcdef" (n % 16) (n % 16 + 1)

-- `\uXXXX`
unicode : ℕ → String
unfolding hex
unicode n = "\\u" <> (hex (n / 4096) <> (hex (n / 256) <> (hex (n / 16) <> hex n)))

-- One character under `ensure_ascii`: beyond the first plane, as a surrogate pair.
escape : Char → String
unfolding unicode
escape c =
    let n = code c in
    if eqb n b'"'
    then "\\\""
    else if eqb n b'\\'
    then "\\\\"
    else if eqb n 10
    then "\\n"
    else if eqb n 13
    then "\\r"
    else if eqb n 9
    then "\\t"
    else if eqb n 12
    then "\\f"
    else if eqb n 8
    then "\\b"
    else if ltb n 32
    then unicode n
    else if ltb n 127
    then (c ∷ "")
    else if ltb n 65536
    then unicode n
    else unicode (0xd800 + (n - 65536) / 1024) <> unicode (0xdc00 + (n - 65536) % 1024)

escape_all : String → String
escape_all [] = ""
escape_all (c ∷ s) = escape c <> escape_all s

quoted : String → String
unfolding escape_all escape
quoted s = "\"" <> (escape_all s <> "\"")

abbrev constant : Bool → String
constant true = "true"
constant false = "false"

-- `pad` is the newline with the indentation of the value's own line.
mutual
  print : String → Json → String
  print pad (string s) = quoted s
  print pad (number n) = show n
  print pad (boolean b) = constant b
  print pad (array nil) = "[]"
  print pad (array (item j js)) =
      let inner = pad <> "  " in
      "[" <> (inner <> (print inner j <> (print_items inner js <> (pad <> "]"))))
  print pad (object end) = "{}"
  print pad (object (member k j ms)) =
      let inner = pad <> "  " in
      "{"
      <> (inner
          <> (quoted k <> (": " <> (print inner j <> (print_members inner ms <> (pad <> "}"))))))

  print_items : String → Items → String
  print_items pad nil = ""
  print_items pad (item j js) = "," <> (pad <> (print pad j <> print_items pad js))

  print_members : String → Members → String
  print_members pad end = ""
  print_members pad (member k j ms) =
      "," <> (pad <> (quoted k <> (": " <> (print pad j <> print_members pad ms))))

unfoldable pub dumps : Json → String
unfolding print quoted show
dumps j = print "\n" j

test :
    dumps (
      object (
        member "a"
          (array (item (number 3) (item (string "x\"é") nil)))
          (member "b" (array nil) end)))
    ≡ "{\n  \"a\": [\n    3,\n    \"x\\\"\\u00e9\"\n  ],\n  \"b\": []\n}"
unfolding dumps
test = refl
