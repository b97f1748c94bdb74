-- ===== src/Interview/Engine.antt =====
-- interview/engine.py. `W` is the state that the provider acts on: the terminal, or a log.
use dng_preflight.Base.{List, [], ◌∷◌, insert, not, if◌then◌else◌}
use dng_preflight.Base.Exec.{Exec, pure, lift, ◌>>=◌, ◌>>◌}
use dng_preflight.Models.Snapshot.{EnvironmentSnapshot}
use dng_preflight.Models.Answers.{InterviewAnswers}
use dng_preflight.Interview.Questions.{Object, Prior, Question, ordered_questions}
use dng_preflight.Interview.Assemble.{model_validate}

-- The provider, which may act on `W` and may raise.
abbrev pub AnswersProvider : Type 0 → Type 0
AnswersProvider W = Question → EnvironmentSnapshot → Object → Prior → Exec W Object

module _ {W : Type 0} (snapshot : EnvironmentSnapshot) (provider : AnswersProvider W) where
  -- The answer of one round: the default where the question does not apply.
  abbrev pub answer_to : Question → Prior → Exec W Object
  answer_to question prior =
      let default = question.default_from snapshot prior in
      if not (question.applies_when snapshot prior)
      then pure default
      else provider question snapshot default prior

  -- One round of the loop of `run`.
  unfoldable pub ask : Question → Prior → Exec W Prior
  ask question prior = do
    answer ← answer_to question prior
    lift (question.validate_answer answer snapshot prior)
    pure (insert question.id answer prior)

  unfoldable pub walk : List Question → Prior → Exec W Prior
  walk [] prior = pure prior
  walk (question ∷ questions) prior = do next ← ask question prior; walk questions next

  unfoldable pub run : Exec W InterviewAnswers
  unfolding walk ask
  run = do prior ← walk ordered_questions []; lift (model_validate prior)
