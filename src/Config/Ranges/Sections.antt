-- ===== src/Config/Ranges/Sections.antt =====
-- The ranges of each section, as its checks in src/rastir/server/config.py enforce them.
use rastir.Base.{String, ◌≡◌, refl, ◌↔◌, false, List, [], ◌∷◌, ◌++◌, arith, All, eq_iff}
use rastir.Base.Integers.{ℤ}
use rastir.Dict.{Dict}
use rastir.Config.{
  LimitsSection, HistogramSection, BackpressureSection, EvaluationSection, SreAgentConfig,
  SreSection,
}
use rastir.Config.Validation.{
  Problem, accepted, any_not_positive, check_count, check_buckets, check_limit, check_histograms,
  check_limits, check_backpressure, check_evaluation, check_agents, check_sre, verdict_of,
}
use rastir.Config.Ranges.{
  AtLeast, IsBuckets, HistogramsInRange, LimitsInRange, BackpressureInRange, EvaluationInRange,
  AgentInRange, SreInRange,
}

pub nil_of_append : (xs ys : List Problem) → (xs ++ ys ≡ []) ↔ ((xs ≡ []) × (ys ≡ []))
nil_of_append [] ys = (λ h. (refl, h), λ h. h.1)
nil_of_append (x ∷ xs) ys = (ground arith, ground arith)

pub last_nil :
    {xs : List Problem} (ys : List Problem) {Q : Type 0}
    → (xs ≡ []) ↔ Q
    → (xs ++ ys ≡ []) ↔ (Q × (ys ≡ []))
last_nil {xs} ys q = (
  λ h. let (hx, hy) = (nil_of_append xs ys).0 h in (q.0 hx, hy),
  λ h. (nil_of_append xs ys).1 (q.1 h.0, h.1),
)

pub limits_lem : (l : LimitsSection) → (check_limits l ≡ []) ↔ LimitsInRange l
unfolding check_limits check_limit
limits_lem l = (ground arith, ground arith)

any_not_positive_lem :
    (buckets : List ℤ) → (any_not_positive buckets ≡ false) ↔ All (AtLeast 1) buckets
unfolding any_not_positive
any_not_positive_lem [] = (λ h. tt, λ h. refl)
any_not_positive_lem (b ∷ buckets) =
    (ground (arith, any_not_positive_lem buckets), ground (arith, any_not_positive_lem buckets))

buckets_lem :
    (name : String) (buckets : List ℤ)
    → ((check_count name buckets ≡ []) × (check_buckets name buckets ≡ [])) ↔ IsBuckets buckets
unfolding check_count check_buckets
buckets_lem name buckets =
    (ground (arith, any_not_positive_lem buckets), ground (arith, any_not_positive_lem buckets))

pub histograms_lem : (h : HistogramSection) → (check_histograms h ≡ []) ↔ HistogramsInRange h
unfolding check_histograms
histograms_lem h =
    let a = check_count "duration_buckets" h.duration_buckets in
    let b = check_count "tokens_buckets" h.tokens_buckets in
    let c = check_buckets "duration_buckets" h.duration_buckets in
    let d = check_buckets "tokens_buckets" h.tokens_buckets in
    (
      ground (
        arith,
        nil_of_append a (b ++ c ++ d),
        nil_of_append b (c ++ d),
        nil_of_append c d,
        buckets_lem "duration_buckets" h.duration_buckets,
        buckets_lem "tokens_buckets" h.tokens_buckets,
      ),
      ground (
        arith,
        nil_of_append a (b ++ c ++ d),
        nil_of_append b (c ++ d),
        nil_of_append c d,
        buckets_lem "duration_buckets" h.duration_buckets,
        buckets_lem "tokens_buckets" h.tokens_buckets,
      ),
    )

pub backpressure_lem :
    (b : BackpressureSection) → (check_backpressure b ≡ []) ↔ BackpressureInRange b
unfolding check_backpressure
backpressure_lem b = (
  ground (arith, eq_iff b.mode "reject", eq_iff b.mode "drop_oldest"),
  ground (arith, eq_iff b.mode "reject", eq_iff b.mode "drop_oldest"),
)

pub evaluation_lem : (e : EvaluationSection) → (check_evaluation e ≡ []) ↔ EvaluationInRange e
unfolding check_evaluation
evaluation_lem e = (
  ground (arith, eq_iff e.drop_policy "drop_new", eq_iff e.drop_policy "drop_oldest"),
  ground (arith, eq_iff e.drop_policy "drop_new", eq_iff e.drop_policy "drop_oldest"),
)

agents_lem :
    (agents : Dict SreAgentConfig) → (check_agents agents ≡ []) ↔ All (λ a. AgentInRange a.1) agents
unfolding check_agents
agents_lem [] = (λ h. tt, λ h. refl)
agents_lem ((name, a) ∷ agents) =
    (ground (arith, agents_lem agents), ground (arith, agents_lem agents))

pub sre_lem : (s : SreSection) → (check_sre s ≡ []) ↔ SreInRange s
unfolding check_sre
sre_lem s = (ground (arith, agents_lem s.agents), ground (arith, agents_lem s.agents))

pub accepted_nil : (l : List Problem) → verdict_of l ≡ accepted → l ≡ []
accepted_nil [] h = refl
accepted_nil (p ∷ l) h = absurd (ground arith)

pub nil_accepted : (l : List Problem) → l ≡ [] → verdict_of l ≡ accepted
nil_accepted l h = rw h refl
