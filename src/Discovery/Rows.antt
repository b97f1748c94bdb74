-- ===== src/Discovery/Rows.antt =====
-- The scan of ntpq's rows in discovery/time_sync.py: when it raises.
use Prim.Native.String.{[], ◌∷◌}
use dng_preflight.Base.{
  ◌≡◌, refl, ◌⊎◌, inl, inr, String, true, false, Option, none, some, List, [], ◌∷◌, Result, ok, err,
  index_error, Bool-cases,
}
use dng_preflight.Base.Words.{starts_with, words}
use dng_preflight.Discovery.TimeSync.{ntpq_source, peer}

-- The first line with an asterisk in front, without the asterisk.
pub data Selects : List String → String → Type 0 where
  first :
      {c : _} {row : String} {lines : List String}
      → starts_with "*" (c ∷ row) ≡ true
      → Selects ((c ∷ row) ∷ lines) row
  later :
      {line row : String} {lines : List String}
      → starts_with "*" line ≡ false
      → Selects lines row
      → Selects (line ∷ lines) row

-- The first such line has nothing but spaces after the asterisk.
abbrev pub IsBare : List String → Type 0
IsBare lines = (row : String) × Selects lines row × (words row ≡ [])

-- A line that was passed over.
IsBare-skipped :
    (line : String) (lines : List String)
    → starts_with "*" line ≡ false
    → IsBare (line ∷ lines)
    → IsBare lines
IsBare-skipped _ lines plain (row, first starred, blank) = cc
IsBare-skipped _ lines plain (row, later _ h, blank) = (row, h, blank)

abbrev pub Raises : Result (Option String) → Type 0
Raises r = r ≡ err index_error

-- Either the scan of the rows raises on a bare one, or it has a result and there is none.
abbrev pub Outcome : List String → Result (Option String) → Type 0
Outcome lines r =
    (Raises r × IsBare lines) ⊎ (source : Option String) × (r ≡ ok source) × ¬ IsBare lines

Outcome-skipped :
    (line : String) (lines : List String) (r : Result (Option String))
    → starts_with "*" line ≡ false
    → Outcome lines r
    → Outcome (line ∷ lines) r
Outcome-skipped line lines r plain (inl (raised, (row, h, blank))) =
    inl (raised, (row, later plain h, blank))
Outcome-skipped line lines r plain (inr (source, same, none_bare)) =
    inr (source, same, λ b. none_bare (IsBare-skipped line lines plain b))

-- The row that was selected is the first.
first-IsBare :
    (c : _) (row : String) (lines : List String)
    → starts_with "*" (c ∷ row) ≡ true
    → IsBare ((c ∷ row) ∷ lines)
    → words row ≡ []
first-IsBare _ _ lines starred (row, first _, blank) = blank
first-IsBare _ _ lines starred (row, later plain h, blank) = cc

nothing-IsBare : ¬ IsBare []
nothing-IsBare (row, h, blank) = elim h [ ]

peer-Outcome :
    (c : _) (row : String) (lines : List String)
    → starts_with "*" (c ∷ row) ≡ true
    → (parts : List String) → words row ≡ parts
    → Outcome ((c ∷ row) ∷ lines) (peer parts)
peer-Outcome c row lines starred [] blank = inl (refl, (row, first starred, blank))
peer-Outcome c row lines starred (w ∷ ws) has =
    inr (some w, refl, λ b. cc (has, first-IsBare c row lines starred b))

pub ntpq_source-Outcome : (lines : List String) → Outcome lines (ntpq_source lines)
unfolding ntpq_source starts_with
ntpq_source-Outcome [] = inr (none, refl, nothing-IsBare)
ntpq_source-Outcome ([] ∷ lines) = Outcome-skipped "" lines _ refl (ntpq_source-Outcome lines)
ntpq_source-Outcome ((c ∷ row) ∷ lines) = elim (Bool-cases (starts_with "*" (c ∷ row))) [
  | inl starred ↦ rw starred (peer-Outcome c row lines starred (words row) refl)
  | inr plain ↦ rw plain (Outcome-skipped (c ∷ row) lines _ plain (ntpq_source-Outcome lines))
]

-- The scan raises on a bare row.
pub IsBare-Raises : (lines : List String) → IsBare lines → Raises (ntpq_source lines)
IsBare-Raises lines bare = elim (ntpq_source-Outcome lines) [
  | inl (raised, _) ↦ raised
  | inr (_, _, none_bare) ↦ absurd (none_bare bare)
]
