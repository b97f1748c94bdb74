-- ===== src/Base/Sorted.antt =====
-- Python's `sorted` on texts, which compares code points, and what it promises.
use Prim.Native.Char.{code}
use Prim.Native.String.{[], ◌∷◌}
use mathlib.Core.Bool.{Bool-set}
use mathlib.Core.List.{Perm, Pairwise, Mem, Pairwise-singleton, forall_mem-cons}
use mathlib.Core.List.Perm
use dng_preflight.Base.{
  ◌≡◌, refl, inl, inr, String, Bool, true, false, ◌&&◌, ◌||◌, List, [], ◌∷◌, ltb, eqb, arith,
  truthy, if◌then◌else◌, Bool-cases,
}

-- `s <= t`
unfoldable pub text_le : String → String → Bool
text_le [] t = true
text_le (c ∷ s) [] = false
text_le (c ∷ s) (d ∷ t) = let n = code c in let m = code d in ltb n m || eqb n m && text_le s t

unfoldable pub insert_sorted : String → List String → List String
unfolding text_le
insert_sorted s [] = s ∷ []
insert_sorted s (t ∷ ts) =
    let rest = insert_sorted s ts in if text_le s t then s ∷ t ∷ ts else t ∷ rest

unfoldable pub sorted : List String → List String
unfolding insert_sorted
sorted [] = []
sorted (s ∷ ss) = insert_sorted s (sorted ss)

text_le_total : (s t : String) → text_le s t ≡ false → text_le t s ≡ true
unfolding text_le
text_le_total [] t h = ground arith
text_le_total (c ∷ s) [] h = refl
text_le_total (c ∷ s) (d ∷ t) h = ground (arith, text_le_total s t)

text_le_trans : (s t u : String) → text_le s t ≡ true → text_le t u ≡ true → text_le s u ≡ true
unfolding text_le
text_le_trans [] t u h k = refl
text_le_trans (c ∷ s) [] u h k = ground arith
text_le_trans (c ∷ s) (d ∷ t) [] h k = ground arith
text_le_trans (c ∷ s) (d ∷ t) (e ∷ u) h k = ground (arith, text_le_trans s t u)

abbrev pub InOrder : String → String → Type 0
InOrder s t = text_le s t ≡ true

-- Each text is at most every later one.
abbrev pub IsSorted : List String → Type 0
IsSorted = Pairwise InOrder

abbrev IsBelow : String → List String → Type 0
IsBelow s ts = (t : String) → Mem t ts → InOrder s t

IsBelow-cons : (s t : String) (ts : List String) → InOrder s t → IsBelow s ts → IsBelow s (t ∷ ts)
IsBelow-cons s t ts p h = (forall_mem-cons (λ t. Bool-set _ _)).1 (p, h)

IsBelow-perm : (s : String) {ts us : List String} → Perm ts us → IsBelow s us → IsBelow s ts
IsBelow-perm s p h t m = h t ((Perm.mem_iff p).0 m)

IsBelow-head :
    (s t : String) {ts : List String} → InOrder s t → IsSorted (t ∷ ts) → IsBelow s (t ∷ ts)
IsBelow-head s t {ts} p (Pairwise.cons h _) =
    IsBelow-cons s t ts p λ u m. text_le_trans s t u p (h u m)

module _ (s t : String) (ts : List String) where
  insert_sorted_first : InOrder s t → insert_sorted s (t ∷ ts) ≡ s ∷ t ∷ ts
  unfolding insert_sorted
  insert_sorted_first le = rw le

  insert_sorted_later : text_le s t ≡ false → insert_sorted s (t ∷ ts) ≡ t ∷ insert_sorted s ts
  unfolding insert_sorted
  insert_sorted_later above = rw above

insert_sorted_nil : (s : String) → insert_sorted s [] ≡ s ∷ []
unfolding insert_sorted
insert_sorted_nil s = refl

insert_sorted-perm : (s : String) (ts : List String) → Perm (insert_sorted s ts) (s ∷ ts)
insert_sorted-perm s [] = rw insert_sorted_nil Perm.rfl
insert_sorted-perm s (t ∷ ts) = elim (Bool-cases (text_le s t)) [
  | inl le ↦ rw (insert_sorted_first s t ts le) Perm.rfl
  | inr above ↦
      rw (insert_sorted_later s t ts above)
        (Perm.trans (Perm.cons t (insert_sorted-perm s ts)) (Perm.swap s t ts))
]

insert_sorted-IsSorted :
    (s : String) {ts : List String} → IsSorted ts → IsSorted (insert_sorted s ts)
insert_sorted-IsSorted s Pairwise.nil = rw insert_sorted_nil (Pairwise-singleton _ s)
insert_sorted-IsSorted s (Pairwise.cons {a = t} {l = ts} below rest) =
    elim (Bool-cases (text_le s t)) [
      | inl le ↦
          let whole = Pairwise.cons below rest in
          rw (insert_sorted_first s t ts le) (Pairwise.cons (IsBelow-head s t le whole) whole)
      | inr above ↦ rw (insert_sorted_later s t ts above) (
          Pairwise.cons
            (IsBelow-perm t (insert_sorted-perm s ts)
              (IsBelow-cons t s ts (text_le_total s t above) below))
            (insert_sorted-IsSorted s rest))
    ]

pub sorted-perm : (ss : List String) → Perm (sorted ss) ss
unfolding sorted
sorted-perm [] = Perm.rfl
sorted-perm (s ∷ ss) = Perm.trans (insert_sorted-perm s (sorted ss)) (Perm.cons s (sorted-perm ss))

pub sorted-IsSorted : (ss : List String) → IsSorted (sorted ss)
unfolding sorted
sorted-IsSorted [] = Pairwise.nil
sorted-IsSorted (s ∷ ss) = insert_sorted-IsSorted s (sorted-IsSorted ss)

insert_sorted-truthy : (s : String) (ts : List String) → truthy (insert_sorted s ts) ≡ true
unfolding insert_sorted
insert_sorted-truthy s [] = refl
insert_sorted-truthy s (t ∷ ts) = ground arith

-- Sorting keeps whether a list is empty.
pub sorted-truthy : (ss : List String) → truthy (sorted ss) ≡ truthy ss
unfolding sorted
sorted-truthy [] = refl
sorted-truthy (s ∷ ss) = insert_sorted-truthy s (sorted ss)

test : sorted ("b" ∷ "ab" ∷ "B" ∷ "a" ∷ []) ≡ "B" ∷ "a" ∷ "ab" ∷ "b" ∷ []
unfolding sorted
test = refl
