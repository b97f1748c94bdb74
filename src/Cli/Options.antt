-- ===== src/Cli/Options.antt =====
-- `_collect_overrides` of cli.py, and `PurePath.name`.
use Prim.Native.Char.{code}
use Prim.Native.String.{[], ◌∷◌}
use dng_preflight.Base.{
  String, Bool, true, false, Option, none, some, List, [], ◌∷◌, ◌++◌, eqb, if◌then◌else◌,
}
use dng_preflight.Validation.Stops.{allow_public_admin, allow_domain_joined, skip_time_check}

-- The flag options that the commands share.
pub record Flags : Type 0 where
  pub public_admin : Bool
  pub domain_joined : Bool
  pub time_check : Bool

abbrev when : Bool → String → List String
when given flag = if given then flag ∷ [] else []

-- The frozen set, as the list of its members.
unfoldable pub collect_overrides : Flags → List String
collect_overrides flags =
    when flags.public_admin allow_public_admin
    ++ (when flags.domain_joined allow_domain_joined ++ when flags.time_check skip_time_check)

abbrev pub is_some : Option String → Bool
is_some none = false
is_some (some _) = true

-- What follows the last slash, if there is one.
abbrev pub after_slash : String → Option String
after_slash [] = none
after_slash (c ∷ s) =
    let later = after_slash s in
    if is_some later then later else if eqb (code c) b'/' then some s else none

-- `PurePath.name`
unfoldable pub name : String → String
name path = elim (after_slash path) [ some s ↦ s | none ↦ path ]
