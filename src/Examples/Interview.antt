-- ===== src/Examples/Interview.antt =====
-- Tests and runs of interview/engine.py.

use dng_preflight.Models.Answers.{InterviewAnswers}
use dng_preflight.Interview.Finish.{run-Returns}
use dng_preflight.Base.{◌≡◌, refl, [], ok}
use dng_preflight.Models.Answers.{web_ssh_rdp_smb}
use dng_preflight.Base.{
  map, ◌++◌, ◌∷◌, err, Result, runtime_error, In, inl, ap, ok-injective, List, String,
}
use dng_preflight.Interview.Prompt.{Dialogue, questionary_provider}
use dng_preflight.Interview.Prompted.{value_of, IsFaithful, on_idp, questionary_provider-accepted}
use dng_preflight.Interview.Questions.{
  null, idp, Choice, text, require_one_of, validate_hostname, validate_strategy, validate_wildcard,
  validate_balancer, validate_apps,
}
use dng_preflight.Interview.Assemble.{model_validate}
use dng_preflight.Base.Text.{strip, has_char}
use dng_preflight.Interview.Engine.{run}
use dng_preflight.Interview.Hostname.{IsNamed, Holds, validate_hostname_iff}
use dng_preflight.Interview.Sound.{IsConsistent, run-IsConsistent}
use dng_preflight.Interview.Canned.{replying, asked}
use dng_preflight.Interview.Complete.{forced, run-replying}
use dng_preflight.Examples.Operator.{operator, operator-IsCooperative}
use dng_preflight.Examples.Sample.{snapshot, answers}

accepted : IsNamed answers.public_hostname × Holds "." answers.public_hostname
unfolding validate_hostname strip has_char
accepted = (validate_hostname_iff answers.public_hostname).0 refl

run-replying_example :
    run snapshot (replying answers) [] ≡ (ok (forced answers), asked web_ssh_rdp_smb)
run-replying_example = run-replying snapshot answers accepted.0 accepted.1 (λ _. refl)

sample_run : run snapshot (replying answers) [] ≡ (ok answers, asked web_ssh_rdp_smb)
unfolding run require_one_of validate_hostname strip has_char validate_strategy validate_wildcard
    validate_balancer validate_apps model_validate
sample_run = refl

run-IsConsistent_example : IsConsistent answers
run-IsConsistent_example =
    run-IsConsistent snapshot (replying answers) [] (asked web_ssh_rdp_smb) answers sample_run

-- The first choice.
abbrev pick : List Choice → List String → Result String × List String
pick [] log = (err (runtime_error "no choices"), log)
pick (choice ∷ choices) log = (ok choice.value, log)

-- An operator who takes what is offered, and logs the messages.
abbrev terminal : Dialogue (List String)
terminal = record {
  select = λ message choices log. pick choices (log ++ message ∷ []);
  text_line = λ message initial log. (ok initial, log ++ message ∷ []);
  path = λ message log. (ok "/etc/ssl/dng.pem", log ++ message ∷ []);
  confirm = λ message initial log. (ok initial, log ++ message ∷ []);
  ip_network = λ part. ok part;
  str = λ _. "";
}

pick-faithful :
    (choices : List Choice) (log log' : List String) (value : String)
    → pick choices log ≡ (ok value, log')
    → In value (map value_of choices)
pick-faithful [] log log' value h = cc (ap (λ r. r.0) h)
pick-faithful (choice ∷ choices) log log' value h =
    inl (ok-injective choice.value value (ap (λ r. r.0) h))

terminal-IsFaithful : IsFaithful terminal
terminal-IsFaithful message choices log log' value h =
    pick-faithful choices (log ++ message ∷ []) log' value h

asks_idp :
    questionary_provider terminal idp snapshot null [] []
    ≡ (ok (text "duo_sso"), "Which IdP will DNG use?" ∷ [])
unfolding questionary_provider
asks_idp = refl

questionary_provider-accepted_example : idp.validate_answer (text "duo_sso") snapshot [] ≡ ok tt
questionary_provider-accepted_example =
    questionary_provider-accepted terminal terminal-IsFaithful (text "duo_sso") []
      ("Which IdP will DNG use?" ∷ []) idp snapshot null [] on_idp refl asks_idp

run-Returns_example :
    (a : InterviewAnswers) × (w' : List String) × (run snapshot (questionary_provider operator) []
      ≡ (ok a, w'))
    × IsConsistent a
run-Returns_example = run-Returns operator operator-IsCooperative snapshot []
