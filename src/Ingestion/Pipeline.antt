-- ===== src/Ingestion/Pipeline.antt =====
-- What a span may reach on its way through the pipeline.
use rastir.Base.{
  ℕ, ◌+◌, String, ◌≡◌, ◌≢◌, refl, true, false, ◌||◌, none, some, List, [], ◌∷◌, ◌++◌, arith, str_eq,
  eq_iff, if◌then◌else◌, Bool-cases, inl, inr,
}
use rastir.Span.{Span, truthy}
use rastir.TraceStore
use rastir.TraceStore.{TraceStore}
use rastir.EvaluationQueue.{EvaluationQueue, EvaluationTask}
use rastir.Sampling.{should_store}
use rastir.Redaction.{Redactor, redact_span, attribute}
use rastir.Ingestion.{Outside, Ingestion, Settings}
use rastir.Ingestion.Process.{put_task, enqueue_task, evaluate_span, process_span, process_spans}

-- Nothing that keeps spans has changed: the trace store, the exporter and the evaluation queue.
pub record SameKept (w w' : Ingestion) : Type 0 where
  pub store : w'.trace_store ≡ w.trace_store
  pub exported : w'.otlp ≡ w.otlp
  pub evaluated : w'.eval_queue ≡ w.eval_queue

-- The same, but for the evaluation queue.
record SameStores (w w' : Ingestion) : Type 0 where
  pub store : w'.trace_store ≡ w.trace_store
  pub exported : w'.otlp ≡ w.otlp

module _ (o : Outside) (c : Settings) (service env : String) where
  -- A span that sampling leaves out reaches no store, no exporter and no evaluation, and the loop
  -- goes on.
  pub unsampled-SameKept :
      (span : Span) (w : Ingestion)
      → should_store c.sampling_rate span (o.random w.calls) ≡ some false
      → ((process_span o c service env span w).0 ≡ some tt)
        × SameKept w (process_span o c service env span w).1
  unfolding process_span
  unsampled-SameKept span w h = ground arith

  -- With a redactor and `drop_on_redaction_failure`, a sampled span with a text to redact whose
  -- redaction fails reaches no store, no exporter and no evaluation, and the loop goes on.
  pub failed_redaction-SameKept :
      (span : Span) (w : Ingestion) (redactor : Redactor)
      → c.redactor ≡ some redactor
      → c.drop_on_redaction_failure ≡ true
      → (truthy (attribute "prompt_text" span) || truthy (attribute "completion_text" span)) ≡ true
      → (redact_span redactor service env span).0 ≡ false
      → should_store c.sampling_rate span (o.random w.calls) ≡ some true
      → ((process_span o c service env span w).0 ≡ some tt)
        × SameKept w (process_span o c service env span w).1
  unfolding process_span
  failed_redaction-SameKept span w redactor hr hd ht hf hs =
      simp (hs, hr, ht, hf, hd) (refl, record { store = refl; exported = refl; evaluated = refl })

  store-put_task :
      (task : EvaluationTask) (q : EvaluationQueue) (w : Ingestion)
      → SameStores w (put_task task q w).1
  unfolding put_task
  store-put_task task q w = ground arith

  enqueue_task-SameStores :
      (span : Span) (q : EvaluationQueue) (w : Ingestion)
      → SameStores w (enqueue_task o c span service env q w).1
  unfolding enqueue_task
  enqueue_task-SameStores span q w = ground arith

  evaluate_span-SameStores :
      (span : Span) (w : Ingestion) → SameStores w (evaluate_span o c span service env w).1
  unfolding evaluate_span
  evaluate_span-SameStores span w = ground arith

  pub store-evaluate_span :
      (span : Span) (w : Ingestion)
      → (evaluate_span o c span service env w).1.trace_store ≡ w.trace_store
  store-evaluate_span span w = (evaluate_span-SameStores span w).store

  otlp-evaluate_span :
      (span : Span) (w : Ingestion) → (evaluate_span o c span service env w).1.otlp ≡ w.otlp
  otlp-evaluate_span span w = (evaluate_span-SameStores span w).exported

  -- Where there are a redactor, a trace store and an exporter, a sampled span that has a text to
  -- redact, a trace id and a redaction that goes through is written to the trace store under its
  -- trace id, and to the exporter if that takes it, as the redaction left it.
  pub sampled_kept :
      (span : Span) (w : Ingestion) (redactor : Redactor) (trace_id : String) (spans : List Span)
      (s : TraceStore)
      → c.redactor ≡ some redactor
      → (truthy (attribute "prompt_text" span) || truthy (attribute "completion_text" span)) ≡ true
      → (redact_span redactor service env span).0 ≡ true
      → should_store c.sampling_rate span (o.random w.calls) ≡ some true
      → w.trace_store ≡ some s
      → w.otlp ≡ some spans
      → (redact_span redactor service env span).1.trace_id ≡ some trace_id
      → trace_id ≢ ""
      → ((process_span o c service env span w).1.trace_store
          ≡ some
              (TraceStore.insert trace_id
                ((redact_span redactor service env span).1 ∷ [])
                (o.monotonic (w.calls + 1))
                (o.monotonic (w.calls + 1 + 1))
                s).1)
        × ((process_span o c service env span w).1.otlp
            ≡ some (
                if o.export_span (w.calls + 1 + 1 + 1) (redact_span redactor service env span).1
                then spans ++ (redact_span redactor service env span).1 ∷ []
                else spans))
  unfolding process_span
  sampled_kept span w redactor trace_id spans s hr ht hf hs hw ho hid hne =
      let hq : str_eq trace_id "" ≡ false = ground (arith, eq_iff trace_id "") in
      elim (Bool-cases
        (o.export_span (w.calls + 1 + 1 + 1) (redact_span redactor service env span).1)) [
          | inl he ↦
              simp (hs, hr, ht, hf, hw, ho, hid, hq, he, store-evaluate_span, otlp-evaluate_span)
                (refl, refl)
          | inr he ↦
              simp (hs, hr, ht, hf, hw, ho, hid, hq, he, store-evaluate_span, otlp-evaluate_span)
                (refl, refl)
        ]

  -- A span whose sampling decision raises, whatever is drawn, ends the batch: the exception comes
  -- out of the loop, and the worker is left as if the spans after it had not been there.
  pub process_spans-raise :
      (before after : List Span) (span : Span) (w : Ingestion)
      → ((draw : ℕ) → should_store c.sampling_rate span draw ≡ none)
      → ((process_spans o c service env (before ++ span ∷ after) w).0 ≡ none)
        × (process_spans o c service env (before ++ span ∷ after) w
            ≡ process_spans o c service env (before ++ span ∷ []) w)
  unfolding process_spans
  process_spans-raise [] after span w h =
      unfold process_span in ground (arith, h (o.random w.calls))
  process_spans-raise (s ∷ before) after span w h =
      ground (arith, process_spans-raise before after span (process_span o c service env s w).1 h)
