-- ===== src/EvaluationWorker/Judged.antt =====
-- What src/rastir/server/evaluation_worker.py says of a task: a span for each evaluator.
use rastir.Base.{
  ℕ, String, ◌≡◌, refl, ◌∙◌, subst, Bool, true, false, ◌||◌, Option, none, some, List, [], ◌∷◌,
  arith, Option-cases, inl, inr,
}
use rastir.Dict
use rastir.Dict.{is_some}
use rastir.Span.{Span, num, text, flag}
use rastir.EvaluationQueue.{EvaluationTask}
use rastir.Evaluators
use rastir.Evaluators.{Evaluator}
use rastir.EvaluationWorker.{Pool, Run, finished, timed_out, raised, result_of, eval_span, runnable}

-- What the run of an evaluator of a type means for its span.
abbrev pub type_after : String → Run → String
type_after type (finished r) = r.evaluation_type
type_after type other = type

abbrev pub score_after : Run → ℕ
score_after (finished r) = r.score
score_after other = 0

abbrev pub passed_after : Run → Bool
passed_after (finished r) = r.passed
passed_after other = false

abbrev pub status_after : Run → String
status_after (finished r) = elim r.error [ none ↦ "OK" | some message ↦ "ERROR" ]
status_after other = "ERROR"

module _ (p : Pool) (task : EvaluationTask) where
  -- The span says what the evaluator of the type has found in the task.
  pub record Judged (type : String) (e : Evaluator) (s : Span) : Type 0 where
    pub call : ℕ
    pub type_is :
        Dict.get "evaluation_type" s.attributes
        ≡ some (text (type_after type (p.evaluate call e task)))
    pub score_is :
        Dict.get "evaluation_score" s.attributes ≡ some (num (score_after (p.evaluate call e task)))
    pub passed_is :
        Dict.get "evaluation_passed" s.attributes
        ≡ some (flag (passed_after (p.evaluate call e task)))
    pub status_is : s.status ≡ some (status_after (p.evaluate call e task))

  abbrev pub OneFor : String → Option Evaluator → (List Span → Type 0) → List Span → Type 0
  OneFor type none Rest spans = Rest spans
  OneFor type (some e) Rest [] = ⊥
  OneFor type (some e) Rest (s ∷ spans) = Judged type e s × Rest spans

  -- One span for each type that the registry knows, in their order, and no other.
  abbrev pub OneEach : List String → List Span → Type 0
  OneEach [] [] = Unit
  OneEach [] (s ∷ spans) = ⊥
  OneEach (type ∷ types) spans = OneFor type (Evaluators.get type p.registry) (OneEach types) spans

  -- The registry knows one of the types.
  abbrev pub knows_one : List String → Bool
  knows_one [] = false
  knows_one (type ∷ types) = is_some (Evaluators.get type p.registry) || knows_one types

  abbrev pub JudgedAll : List (String × Evaluator) → List Span → Type 0
  JudgedAll [] [] = Unit
  JudgedAll [] (s ∷ spans) = ⊥
  JudgedAll (e ∷ to_run) [] = ⊥
  JudgedAll ((type, e) ∷ to_run) (s ∷ spans) = Judged type e s × JudgedAll to_run spans

  runnable-none :
      (type : String) (types : List String)
      → Evaluators.get type p.registry ≡ none
      → runnable p.registry (type ∷ types) ≡ runnable p.registry types
  unfolding runnable
  runnable-none type types e = ground (arith, e)

  runnable-some :
      (type : String) (types : List String) (evaluator : Evaluator)
      → Evaluators.get type p.registry ≡ some evaluator
      → runnable p.registry (type ∷ types) ≡ (type, evaluator) ∷ runnable p.registry types
  unfolding runnable
  runnable-some type types evaluator e = ground (arith, e)

  next_span :
      (type : String) (e : Evaluator) (to_run : List (String × Evaluator))
      (Rest : List Span → Type 0) (spans : List Span)
      → ((l : List Span) → JudgedAll to_run l → Rest l)
      → JudgedAll ((type, e) ∷ to_run) spans
      → OneFor type (some e) Rest spans
  next_span type e to_run Rest [] rest h = h
  next_span type e to_run Rest (s ∷ spans) rest (h, hs) = (h, rest spans hs)

  pub runnable-OneEach :
      (types : List String) (spans : List Span)
      → JudgedAll (runnable p.registry types) spans
      → OneEach types spans
  unfolding runnable
  runnable-OneEach [] [] h = tt
  runnable-OneEach [] (s ∷ spans) h = h
  runnable-OneEach (type ∷ types) spans h = elim (Option-cases (Evaluators.get type p.registry)) [
    | inl e ↦ rw e (
        runnable-OneEach types spans
          (subst (λ l. JudgedAll l spans) (runnable-none type types e) h))
    | inr (evaluator, e) ↦ rw e (
        next_span type evaluator (runnable p.registry types) (OneEach types) spans
          (runnable-OneEach types)
          (subst (λ l. JudgedAll l spans) (runnable-some type types evaluator e) h))
  ]

  pub runnable_of_known :
      (types : List String)
      → knows_one types ≡ true
      → (e : String × Evaluator) × (to_run : List (String × Evaluator)) × (runnable p.registry types
          ≡ e ∷ to_run)
  unfolding runnable
  runnable_of_known [] h = absurd (ground (arith, h))
  runnable_of_known (type ∷ types) h = elim (Option-cases (Evaluators.get type p.registry)) [
    | inl e ↦
        let (first, rest, is) = runnable_of_known types (ground (arith, h, e)) in
        (first, rest, runnable-none type types e ∙ is)
    | inr (evaluator, e) ↦
        ((type, evaluator), runnable p.registry types, runnable-some type types evaluator e)
  ]

  pub span-Judged :
      (id : String) (type : String) (timeout call duration start : ℕ) (e : Evaluator)
      → Judged type e
          (eval_span id task (result_of p type timeout (p.evaluate call e task)) duration e start)
  unfolding eval_span Dict.get result_of
  span-Judged id type timeout call duration start e = by_run (p.evaluate call e task) refl
    where
      by_run :
          (r : Run)
          → p.evaluate call e task ≡ r
          → Judged type e (
              eval_span id task
                (result_of p type timeout (p.evaluate call e task))
                duration
                e
                start)
      by_run (finished r) same = record {
        call = call;
        type_is = rw same refl;
        score_is = rw same refl;
        passed_is = rw same refl;
        status_is =
            rw same (elim (Option-cases r.error) [ inl e ↦ rw e refl | inr (m, e) ↦ rw e refl ]);
      }
      by_run timed_out same = record {
        call = call;
        type_is = rw same refl;
        score_is = rw same refl;
        passed_is = rw same refl;
        status_is = rw same refl;
      }
      by_run (raised message) same = record {
        call = call;
        type_is = rw same refl;
        score_is = rw same refl;
        passed_is = rw same refl;
        status_is = rw same refl;
      }
