-- ===== src/Interview/Sound.antt =====
-- What a finished interview of interview/engine.py guarantees of its answers.
use mathlib.Core.Option.{some-injective}
use dng_preflight.Base.{
  ◌==◌, ◌≡◌, refl, ◌≢◌, String, true, some, List, [], ◌∷◌, In, contains_iff, insert, ok, arith,
  eq_iff, truthy-cases, ap,
}
use dng_preflight.Base.Exec.{after-eq-ok}
use dng_preflight.Models.Snapshot.{EnvironmentSnapshot}
use dng_preflight.Models.Answers.{web_ssh_rdp_smb, InterviewAnswers, scope_of}
use dng_preflight.Interview.Questions.{
  Object, null, text, boolean, strategy, balancer, apps, other, Prior, Question, ordered_questions,
  require_one_of, validate_hostname, validate_wildcard, validate_apps, is_rdp_smb_text,
}
use dng_preflight.Interview.Assemble.{
  text_field, boolean_field, apps_field, model_validate, assemble-eq-ok,
}
use dng_preflight.Interview.Engine.{AnswersProvider, answer_to, ask, walk, run}
use dng_preflight.Interview.Hostname.{IsNamed, Holds, validate_hostname_iff}

-- The rules that tie the answers together, and the form of the hostname.
pub record IsConsistent (answers : InterviewAnswers) : Type 0 where
  pub wildcard : answers.deployment_scope ≡ web_ssh_rdp_smb → answers.wildcard_cert ≡ true
  pub relays : answers.seed_apps.rdp_relays ≢ [] → answers.deployment_scope ≡ web_ssh_rdp_smb
  pub named : IsNamed answers.public_hostname
  pub qualified : Holds "." answers.public_hostname

module _ {W : Type 0} (snapshot : EnvironmentSnapshot) (provider : AnswersProvider W) where
  pub ask-eq-ok :
      (q : Question) (prior p : Prior) (w w' : W)
      → ask snapshot provider q prior w ≡ (ok p, w')
      → (answer : Object) × (q.validate_answer answer snapshot prior ≡ ok tt)
        × (insert q.id answer prior ≡ p)
  unfolding ask
  ask-eq-ok q prior p w w' h =
      let (answer, w₁, given, h₁) = after-eq-ok (answer_to snapshot provider q prior w) _ h in
      let (done, w₂, valid, h₂) = after-eq-ok (q.validate_answer answer snapshot prior, w₁) _ h₁ in
      (answer, ap (λ r. r.0) valid, ground arith)

  -- Every answer passed its question's validator, at the answers before it.
  abbrev pub Collected : List Question → Prior → Prior → Type 0
  Collected [] prior p = prior ≡ p
  Collected (q ∷ qs) prior p =
      (answer : Object) × (q.validate_answer answer snapshot prior ≡ ok tt)
      × Collected qs (insert q.id answer prior) p

  pub walk-Collected :
      (qs : List Question) (prior p : Prior) (w w' : W)
      → walk snapshot provider qs prior w ≡ (ok p, w')
      → Collected qs prior p
  unfolding walk
  walk-Collected [] prior p w w' h = ground arith
  walk-Collected (q ∷ qs) prior p w w' h =
      let (next, w₁, asked, h₁) = after-eq-ok (ask snapshot provider q prior w) _ h in
      let (answer, valid, e) = ask-eq-ok q prior next w w₁ asked in
      (answer, valid, rw e (walk-Collected qs next p w₁ w' h₁))

pub require_one_of-eq-ok :
    (answer : Object) (allowed : List String) (field : String)
    → require_one_of answer allowed field ≡ ok tt
    → (s : String) × (answer ≡ text s) × In s allowed
unfolding require_one_of
require_one_of-eq-ok (text s) allowed field h = (s, refl, ground (arith, contains_iff allowed s))
require_one_of-eq-ok null allowed field h = cc
require_one_of-eq-ok (boolean _) allowed field h = cc
require_one_of-eq-ok (strategy _) allowed field h = cc
require_one_of-eq-ok (balancer _) allowed field h = cc
require_one_of-eq-ok (apps _) allowed field h = cc
require_one_of-eq-ok other allowed field h = cc

abbrev pub collected : Object → Object → Object → Object → Object → Object → Object → Object → Prior
collected a b c d e f g h =
    ("deployment_scope", a)
    ∷ ("idp", b)
    ∷ ("public_hostname", c)
    ∷ ("tls_strategy", d)
    ∷ ("wildcard_cert", e)
    ∷ ("load_balancer", f)
    ∷ ("internal_dns", g)
    ∷ ("seed_apps", h)
    ∷ []

scope_of-rdp_smb :
    (s : String) → (s == "web_ssh_rdp_smb") ≡ true → scope_of s ≡ some web_ssh_rdp_smb
scope_of-rdp_smb s h = rw ((eq_iff s "web_ssh_rdp_smb").0 h)

-- The answers that are assembled from validated ones are consistent.
IsConsistent-of_valid :
    (a c e h : Object) (answers : InterviewAnswers)
    → text_field scope_of (some a) ≡ some answers.deployment_scope
    → text_field some (some c) ≡ some answers.public_hostname
    → boolean_field (some e) ≡ some answers.wildcard_cert
    → apps_field (some h) ≡ some answers.seed_apps
    → validate_hostname c ≡ ok tt
    → validate_wildcard e (is_rdp_smb_text (some a)) ≡ ok tt
    → validate_apps h (is_rdp_smb_text (some a)) ≡ ok tt
    → IsConsistent answers
unfolding validate_wildcard validate_apps
IsConsistent-of_valid (text a) (text c) (boolean e) (apps h) answers ea ec ee eh hostname wild
      relays =
    let (named, qualified) = (validate_hostname_iff c).0 hostname in
    record {
      wildcard = λ rdp. ground (arith, scope_of-rdp_smb a);
      relays = λ some_relay. ground (arith, scope_of-rdp_smb a, truthy-cases h.rdp_relays);
      named = rw (some-injective _ _ ec) at named;
      qualified = rw (some-injective _ _ ec) at qualified;
    }
IsConsistent-of_valid (text a) (text c) (boolean e) _ answers ea ec ee eh _ _ _ = cc
IsConsistent-of_valid (text a) (text c) _ _ answers ea ec ee eh _ _ _ = cc
IsConsistent-of_valid (text a) _ _ _ answers ea ec ee eh _ _ _ = cc
IsConsistent-of_valid _ _ _ _ answers ea ec ee eh _ _ _ = cc

-- Whatever the provider does, an interview that finishes has consistent answers: the RDP/SMB scope
-- has a wildcard certificate, RDP relays are only in that scope, and the hostname is not blank and
-- has a dot.
pub run-IsConsistent :
    {W : Type 0} (snapshot : EnvironmentSnapshot) (provider : AnswersProvider W) (w w' : W)
    (answers : InterviewAnswers)
    → run snapshot provider w ≡ (ok answers, w')
    → IsConsistent answers
unfolding run model_validate
run-IsConsistent snapshot provider w w' answers h =
    let (p, w₁, walked, h₁) = after-eq-ok (walk snapshot provider ordered_questions [] w) _ h in
    let (a, _, (b, _, (c, vc, (d, _, (e, ve, (f, _, (g, _, (k, vk, same)))))))) =
      walk-Collected snapshot provider ordered_questions [] p w w₁ walked in
    let assembled = rw (← same) at (ap (λ r. r.0) h₁) in
    let (ea, ec, ee, ek) = assemble-eq-ok _ _ _ _ _ _ _ _ answers assembled in
    IsConsistent-of_valid a c e k answers ea ec ee ek vc ve vk
