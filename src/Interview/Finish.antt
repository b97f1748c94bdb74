-- ===== src/Interview/Finish.antt =====
-- An interview of interview/engine.py at the terminal of interview/prompt.py ends.
use dng_preflight.Base.{
  ◌≡◌, refl, Bool, true, false, List, [], ◌∷◌, All, insert, ok, Bool-cases, inl, inr,
}
use dng_preflight.Base.Exec.{Returns, after-Returns}
use dng_preflight.Models.Snapshot.{EnvironmentSnapshot}
use dng_preflight.Models.Answers.{InterviewAnswers}
use dng_preflight.Interview.Questions.{
  Object, boolean, Prior, Question, includes_rdp_smb, validate_wildcard, ordered_questions,
  deployment_scope, idp, public_hostname, tls_strategy, wildcard_cert, load_balancer, internal_dns,
  seed_apps,
}
use dng_preflight.Interview.Prompt.{Dialogue, questionary_provider}
use dng_preflight.Interview.Prompted.{
  IsSettled, on_scope, on_idp, on_tls, on_wildcard, on_balancer, on_dns, on_apps,
  questionary_provider-accepted,
}
use dng_preflight.Interview.Engine.{ask, walk, run}
use dng_preflight.Interview.Assembled.{walk-run}
use dng_preflight.Interview.Cooperative.{
  IsCooperative, provider-Returns, hostname-Returns, hostname-valid,
}
use dng_preflight.Interview.Sound.{IsConsistent, run-IsConsistent}

-- The default for the certificate is accepted where the question is skipped.
default-valid : (rdp_smb : Bool) → validate_wildcard (boolean rdp_smb) rdp_smb ≡ ok tt
unfolding validate_wildcard
default-valid true = refl
default-valid false = refl

module _ {W : Type 0} (dialogue : Dialogue W) (good : IsCooperative dialogue) where
  module _ (snapshot : EnvironmentSnapshot) (q : Question) (prior : Prior) (w : W) where
    -- A round in which the question is put to the operator.
    ask-Returns :
        q.applies_when snapshot prior ≡ true
        → Returns (questionary_provider dialogue q snapshot (q.default_from snapshot prior) prior w)
        → ((answer : Object) (w' : W)
            → questionary_provider dialogue q snapshot (q.default_from snapshot prior) prior w
              ≡ (ok answer, w')
            → q.validate_answer answer snapshot prior ≡ ok tt)
        → Returns (ask snapshot (questionary_provider dialogue) q prior w)
    unfolding ask
    ask-Returns applies (answer, w', given) valid =
        (insert q.id answer prior, w', rw (applies, given, valid answer w' given))

    -- A round in which the default is taken.
    ask-skipped :
        q.applies_when snapshot prior ≡ false
        → q.validate_answer (q.default_from snapshot prior) snapshot prior ≡ ok tt
        → Returns (ask snapshot (questionary_provider dialogue) q prior w)
    unfolding ask
    ask-skipped skips valid =
        (insert q.id (q.default_from snapshot prior) prior, w, rw (skips, valid))

  module _ (snapshot : EnvironmentSnapshot) where
    -- Every round of this question ends.
    abbrev Ends : Question → Type 0
    Ends q =
        (prior : Prior) (w : W) → Returns (ask snapshot (questionary_provider dialogue) q prior w)

    settled-Returns :
        (q : Question)
        → IsSettled q
        → (prior : Prior) (w : W) → q.applies_when snapshot prior ≡ true
        → Returns (ask snapshot (questionary_provider dialogue) q prior w)
    settled-Returns q settled prior w applies =
        let default = q.default_from snapshot prior in
        ask-Returns snapshot q prior w applies
          (provider-Returns dialogue good q snapshot default prior w settled)
          λ answer w' given.
            questionary_provider-accepted dialogue good.faithful answer w w' q snapshot default
              prior settled applies given

    hostname-Ends : Ends public_hostname
    hostname-Ends prior w =
        let default = public_hostname.default_from snapshot prior in
        ask-Returns snapshot public_hostname prior w refl
          (hostname-Returns dialogue good snapshot default prior w)
          λ answer w' given. hostname-valid dialogue good snapshot default prior w w' answer given

    wildcard-Ends : Ends wildcard_cert
    wildcard-Ends prior w = elim (Bool-cases (wildcard_cert.applies_when snapshot prior)) [
      | inl applies ↦ settled-Returns wildcard_cert on_wildcard prior w applies
      | inr skips ↦
          ask-skipped snapshot wildcard_cert prior w skips (default-valid (includes_rdp_smb prior))
    ]

    All-Ends : All Ends ordered_questions
    All-Ends = (
      (λ prior w. settled-Returns deployment_scope on_scope prior w refl),
      (
        (λ prior w. settled-Returns idp on_idp prior w refl),
        (
          hostname-Ends,
          (
            (λ prior w. settled-Returns tls_strategy on_tls prior w refl),
            (
              wildcard-Ends,
              (
                (λ prior w. settled-Returns load_balancer on_balancer prior w refl),
                (
                  (λ prior w. settled-Returns internal_dns on_dns prior w refl),
                  ((λ prior w. settled-Returns seed_apps on_apps prior w refl), tt),
                ),
              ),
            ),
          ),
        ),
      ),
    )

    walk-Returns :
        (qs : List Question)
        → All Ends qs
        → (prior : Prior) (w : W)
        → Returns (walk snapshot (questionary_provider dialogue) qs prior w)
    unfolding walk
    walk-Returns [] ends prior w = (prior, w, refl)
    walk-Returns (q ∷ qs) (ends, later) prior w =
        after-Returns (ask snapshot (questionary_provider dialogue) q prior w) _ (ends prior w)
          λ next w₁ _. walk-Returns qs later next w₁

    -- With a cooperative operator, who answers every prompt, selects offered choices and enters a
    -- hostname with a dot, whole numbers and at least one network, the interview ends, in whatever
    -- state it starts, with answers that are consistent.
    pub run-Returns :
        (w : W)
        → (answers : InterviewAnswers) × (w' : W) × (run snapshot (questionary_provider dialogue) w
            ≡ (ok answers, w'))
          × IsConsistent answers
    run-Returns w =
        let provider = questionary_provider dialogue in
        let (p, w', walked) = walk-Returns ordered_questions All-Ends [] w in
        let (answers, same) = walk-run snapshot provider w w' p walked in
        (answers, w', same, run-IsConsistent snapshot provider w w' answers same)
