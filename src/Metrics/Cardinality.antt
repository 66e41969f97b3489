-- ===== src/Metrics/Cardinality.antt =====
-- The cardinality guard bounds the label values of each dimension, whatever clients send.
use rastir.Base.{
  ℕ, ◌≤◌, String, ◌≡◌, true, false, ◌⊎◌, inl, inr, List, [], ◌∷◌, arith, length, All, eq_iff,
}
use rastir.Metrics.{Seen, is_seen, clip, guard_cardinality, overflow_sentinel}

-- No label value twice.
abbrev pub DistinctLabels : Seen → Type 0
DistinctLabels [] = Unit
DistinctLabels (v ∷ seen) = (is_seen v seen ≡ false) × DistinctLabels seen

-- The labels for a sequence of values, and the values let through in the end.
unfoldable pub guard_all : ℕ → ℕ → List String → Seen → List String × Seen
guard_all max_label_len cap [] seen = ([], seen)
guard_all max_label_len cap (v ∷ vs) seen =
    let (label, seen') = guard_cardinality max_label_len cap v seen in
    let (labels, seen'') = guard_all max_label_len cap vs seen' in (label ∷ labels, seen'')

-- A label that was let through, or the sentinel.
abbrev pub Known : Seen → String → Type 0
Known seen label = (is_seen label seen ≡ true) ⊎ (label ≡ overflow_sentinel)

guard_step :
    (max_label_len cap : ℕ) (v : String) (seen : Seen)
    → length seen ≤ cap
    → DistinctLabels seen
    → (length (guard_cardinality max_label_len cap v seen).1 ≤ cap)
      × DistinctLabels (guard_cardinality max_label_len cap v seen).1
      × Known
          (guard_cardinality max_label_len cap v seen).1
          (guard_cardinality max_label_len cap v seen).0
unfolding guard_cardinality
guard_step max_label_len cap v seen h d =
    ground (arith, eq_iff (clip max_label_len v) (clip max_label_len v))

guard_keeps :
    (max_label_len cap : ℕ) (v w : String) (seen : Seen)
    → is_seen w seen ≡ true
    → is_seen w (guard_cardinality max_label_len cap v seen).1 ≡ true
unfolding guard_cardinality
guard_keeps max_label_len cap v w seen h = ground arith

guard_all_keeps :
    (max_label_len cap : ℕ) (vs : List String) (w : String) (seen : Seen)
    → is_seen w seen ≡ true
    → is_seen w (guard_all max_label_len cap vs seen).1 ≡ true
unfolding guard_all
guard_all_keeps max_label_len cap [] w seen h = h
guard_all_keeps max_label_len cap (v ∷ vs) w seen h =
    guard_all_keeps max_label_len cap vs w _ (guard_keeps max_label_len cap v w seen h)

-- Starting with distinct labels within the cap, whatever values come, at most `cap` distinct
-- labels are let through, and each label that is written is one of them or the overflow sentinel.
pub guard_all_bounded :
    (max_label_len cap : ℕ) (vs : List String) (seen : Seen)
    → length seen ≤ cap
    → DistinctLabels seen
    → (length (guard_all max_label_len cap vs seen).1 ≤ cap)
      × DistinctLabels (guard_all max_label_len cap vs seen).1
      × All (Known (guard_all max_label_len cap vs seen).1) (guard_all max_label_len cap vs seen).0
unfolding guard_all
guard_all_bounded max_label_len cap [] seen h d = (h, d, tt)
guard_all_bounded max_label_len cap (v ∷ vs) seen h d =
    let (bound, distinct, label) = guard_step max_label_len cap v seen h d in
    let (bound', distinct', labels) =
      guard_all_bounded max_label_len cap vs (guard_cardinality max_label_len cap v seen).1 bound
        distinct in
    (bound', distinct', (still label, labels))
  where
    still :
        Known
          (guard_cardinality max_label_len cap v seen).1
          (guard_cardinality max_label_len cap v seen).0
        → Known
            (guard_all max_label_len cap vs (guard_cardinality max_label_len cap v seen).1).1
            (guard_cardinality max_label_len cap v seen).0
    still (inl known) = inl (guard_all_keeps max_label_len cap vs _ _ known)
    still (inr sentinel) = inr sentinel
