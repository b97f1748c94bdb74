-- ===== src/Discovery/Sections.antt =====
-- The scan of krb5.conf in discovery/system.py against a description by sections.
use dng_preflight.Base.{
  ◌≡◌, ◌↔◌, ◌⊎◌, inl, inr, String, Bool, true, false, not, ◌&&◌, ◌||◌, List, [], ◌∷◌, arith,
  Bool-cases,
}
use dng_preflight.Base.Text.{strip, has_char, splitlines, is_empty}
use dng_preflight.Base.Words.{starts_with, lower}
use dng_preflight.Discovery.Host.{File, absent, unreadable, contents, garbled}
use dng_preflight.Discovery.System.{
  is_skipped, is_header, is_realms_header, has_realms, krb5_realms,
}

-- The kinds of lines: a section's header, the header of the realms, an assignment.
abbrev is_comment : String → Bool
is_comment raw = is_empty (strip raw) || starts_with "#" (strip raw) || starts_with ";" (strip raw)

abbrev pub opens_section : String → Bool
opens_section raw = not (is_comment raw) && starts_with "[" (strip raw)

abbrev pub opens_realms : String → Bool
opens_realms raw = opens_section raw && starts_with "[realms]" (lower (strip raw))

abbrev pub assigns : String → Bool
assigns raw =
    not (is_comment raw) && (not (starts_with "[" (strip raw)) && has_char "=" (strip raw))

-- There is an assignment before the next header.
pub data HasAssignment : List String → Type 0 where
  here : {raw : String} {lines : List String} → assigns raw ≡ true → HasAssignment (raw ∷ lines)
  later :
      {raw : String} {lines : List String}
      → opens_section raw ≡ false
      → HasAssignment lines
      → HasAssignment (raw ∷ lines)

-- Some section of realms has an assignment.
pub data HasRealm : List String → Type 0 where
  within :
      {raw : String} {lines : List String}
      → opens_realms raw ≡ true
      → HasAssignment lines
      → HasRealm (raw ∷ lines)
  further : {raw : String} {lines : List String} → HasRealm lines → HasRealm (raw ∷ lines)

HasAssignment-has_realms :
    {lines : List String} → HasAssignment lines → has_realms true lines ≡ true
unfolding has_realms is_skipped is_header is_realms_header
HasAssignment-has_realms (here h) = ground arith
HasAssignment-has_realms (later h a) = ground (arith, HasAssignment-has_realms a)

HasRealm-has_realms : (b : Bool) {lines : List String} → HasRealm lines → has_realms b lines ≡ true
unfolding has_realms is_skipped is_header is_realms_header
HasRealm-has_realms b (within {raw} h a) = ground (arith, HasAssignment-has_realms a)
HasRealm-has_realms b (further {raw} r) =
    ground (arith, HasRealm-has_realms b r, HasRealm-has_realms (is_realms_header (strip raw)) r)

-- What a scan of lines that started inside or outside of a section of realms can have found.
abbrev Found : Bool → List String → Type 0
Found b lines = ((b ≡ true) × HasAssignment lines) ⊎ HasRealm lines

Found-later :
    (b : Bool) (raw : String) (lines : List String)
    → opens_section raw ≡ false
    → Found b lines
    → Found b (raw ∷ lines)
Found-later b raw lines no_header (inl (e, a)) = inl (e, later no_header a)
Found-later b raw lines no_header (inr r) = inr (further r)

Found-section :
    (b : Bool) (raw : String) (lines : List String)
    → opens_section raw ≡ true
    → Found (is_realms_header (strip raw)) lines
    → Found b (raw ∷ lines)
unfolding is_realms_header
Found-section b raw lines header (inl (e, a)) = inr (within (ground arith) a)
Found-section b raw lines header (inr r) = inr (further r)

has_realms-Found : (b : Bool) (lines : List String) → has_realms b lines ≡ true → Found b lines
unfolding has_realms is_skipped is_header is_realms_header
has_realms-Found b [] h = cc
has_realms-Found b (raw ∷ lines) h =
    let line = strip raw in
    elim (Bool-cases (is_skipped line)) [
      | inl skip ↦ Found-later b raw lines (ground arith) (has_realms-Found b lines (rw skip at h))
      | inr kept ↦ elim (Bool-cases (is_header line)) [
        | inl header ↦
            Found-section b raw lines (ground arith)
              (has_realms-Found (is_realms_header line) lines (rw (kept, header) at h))
        | inr plain ↦ elim (Bool-cases (b && has_char "=" line)) [
          | inl found ↦ inl (ground arith, here (ground arith))
          | inr other ↦
              Found-later b raw lines (ground arith)
                (has_realms-Found b lines (rw (kept, plain, other) at h))
        ]
      ]
    ]

abbrev pub IsRealmFile : File → Type 0
IsRealmFile absent = ⊥
IsRealmFile unreadable = ⊥
IsRealmFile (garbled text) = HasRealm (splitlines text)
IsRealmFile (contents text) = HasRealm (splitlines text)

realms_iff :
    (text : String) → (has_realms false (splitlines text) ≡ true) ↔ HasRealm (splitlines text)
realms_iff text = (
  λ h. elim (has_realms-Found false (splitlines text) h) [ inl (e, _) ↦ cc | inr r ↦ r ],
  λ r. HasRealm-has_realms false r,
)

pub krb5_realms-IsRealmFile_iff : (file : File) → (krb5_realms file ≡ true) ↔ IsRealmFile file
unfolding krb5_realms
krb5_realms-IsRealmFile_iff absent = (λ h. cc, λ h. absurd h)
krb5_realms-IsRealmFile_iff unreadable = (λ h. cc, λ h. absurd h)
krb5_realms-IsRealmFile_iff (garbled text) = realms_iff text
krb5_realms-IsRealmFile_iff (contents text) = realms_iff text
