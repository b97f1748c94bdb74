-- ===== src/Models/Dumped.antt =====
-- Reading back what the models' dumps hold: the parts that the models share.
use dng_preflight.Base.{
  ◌≡◌, refl, ap, ◌∙◌, String, true, Option, none, some, List, [], ◌∷◌, All, Dict,
}
use dng_preflight.Models.Snapshot.{Probed, detected, not_detected}
use dng_preflight.Models.Document.{Value, boolean, text, mapping, Members, member, Scalars, IsExact}
use dng_preflight.Models.Dump.{
  dump_option, dump_items, dump_list, dump_members, dump_dict, dump_probed, found,
}
use dng_preflight.Models.Load.{
  ◌>>=◌, optional, list_of, load_items, dict_of, load_members, probed, load_not_detected,
}
pub mod Snapshot
pub mod Answers

module _ {A : Type 0} (dump : A → Value) (load : Value → Option A) where
  -- This value is read back.
  abbrev pub Reads : A → Type 0
  Reads a = load (dump a) ≡ some a

  load_items-dump_items :
      (xs : List A) → All Reads xs → load_items load (dump_items dump xs) ≡ some xs
  load_items-dump_items [] all = refl
  load_items-dump_items (a ∷ xs) (h, all) = rw (h, load_items-dump_items xs all)

  pub list_of-dump_list : (xs : List A) → All Reads xs → list_of load (dump_list dump xs) ≡ some xs
  list_of-dump_list xs all = load_items-dump_items xs all

  module _ (all : (a : A) → Reads a) where
    pub All-Reads : (xs : List A) → All Reads xs
    All-Reads [] = tt
    All-Reads (a ∷ xs) = (all a, All-Reads xs)

    load_members-dump_members : (d : Dict A) → load_members load (dump_members dump d) ≡ some d
    load_members-dump_members [] = refl
    load_members-dump_members ((k, a) ∷ d) = rw (all a, load_members-dump_members d)

    pub dict_of-dump_dict : (d : Dict A) → dict_of load (dump_dict dump d) ≡ some d
    dict_of-dump_dict d = load_members-dump_members d

  -- The dump of a value that there is is not null.
  pub optional-dump_option :
      ((a : A) → optional load (dump a) ≡ (load (dump a) >>= λ x. some (some x)))
      → (o : Option A) → ((a : A) → o ≡ some a → Reads a)
      → optional load (dump_option dump o) ≡ some o
  optional-dump_option full none reads = refl
  optional-dump_option full (some a) reads = full a ∙ rw (reads a refl)
