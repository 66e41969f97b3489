-- ===== src/Adapters/Sorting.antt =====
-- The order in which src/rastir/adapters/registry.py asks its adapters.
use mathlib.Core.List.{append_assoc, append-nil}
use rastir.Base.{
  ◌⊎◌, subst, ℕ, ◌≤◌, ◌≡◌, refl, ap, sym, ◌∙◌, inl, inr, true, false, List, [], ◌∷◌, ◌++◌, arith,
  All, leb, ◌==◌, Bool-cases, if◌then◌else◌,
}
use rastir.Adapters.{Adapter, Registry, register, place, sort, ensure_sorted, resolve}

-- Adapters are registered and results resolved, in any order.
pub data Call (Obj : Type 0) : Type 0 where
  registered : Adapter Obj → Call Obj
  resolved : Obj → Call Obj

module _ {Obj : Type 0} where
  -- No later adapter has a higher priority.
  abbrev pub Descending : List (Adapter Obj) → Type 0
  Descending [] = Unit
  Descending (a ∷ l) = All (λ b. b.priority ≤ a.priority) l × Descending l

  -- The adapters of one priority, in their order.
  unfoldable pub of_priority : ℕ → List (Adapter Obj) → List (Adapter Obj)
  of_priority n [] = []
  of_priority n (a ∷ l) = if a.priority == n then a ∷ of_priority n l else of_priority n l

  below_more :
      (n m : ℕ) (l : List (Adapter Obj))
      → n ≤ m
      → All (λ b. b.priority ≤ n) l
      → All (λ b. b.priority ≤ m) l
  below_more n m [] h below = tt
  below_more n m (a ∷ l) h below = (omega (arith, h, below.0), below_more n m l h below.1)

  below-place :
      (n : ℕ) (a : Adapter Obj) (l : List (Adapter Obj))
      → a.priority ≤ n
      → All (λ b. b.priority ≤ n) l
      → All (λ b. b.priority ≤ n) (place a l)
  unfolding place
  below-place n a [] h below = (h, tt)
  below-place n a (b ∷ l) h below = elim (Bool-cases (leb b.priority a.priority)) [
    | inl e ↦ rw e (h, below)
    | inr e ↦ rw e (below.0, below-place n a l h below.1)
  ]

  place-Descending :
      (a : Adapter Obj) (l : List (Adapter Obj)) → Descending l → Descending (place a l)
  unfolding place
  place-Descending a [] d = (tt, tt)
  place-Descending a (b ∷ l) d = elim (Bool-cases (leb b.priority a.priority)) [
    | inl e ↦
        rw e ((ground (arith, e), below_more b.priority a.priority l (ground (arith, e)) d.0), d)
    | inr e ↦ rw e (below-place b.priority a l (ground (arith, e)) d.0, place-Descending a l d.1)
  ]

  of_priority-place :
      (n : ℕ) (a : Adapter Obj) (l : List (Adapter Obj))
      → of_priority n (place a l) ≡ of_priority n (a ∷ l)
  unfolding place of_priority
  of_priority-place n a [] = refl
  of_priority-place n a (b ∷ l) = ground (arith, of_priority-place n a l)

  sort-Descending : (l : List (Adapter Obj)) → Descending (sort l)
  unfolding sort
  sort-Descending [] = tt
  sort-Descending (a ∷ l) = place-Descending a (sort l) (sort-Descending l)

  of_priority-sort : (n : ℕ) (l : List (Adapter Obj)) → of_priority n (sort l) ≡ of_priority n l
  unfolding sort of_priority
  of_priority-sort n [] = refl
  of_priority-sort n (a ∷ l) = ground (arith, of_priority-place n a (sort l), of_priority-sort n l)

  unfoldable pub run : List (Call Obj) → Registry Obj → Registry Obj
  unfolding register resolve
  run [] r = r
  run (registered a ∷ calls) r = run calls (register a r)
  run (resolved x ∷ calls) r = run calls (resolve r x).1

  unfoldable pub all_registered : List (Call Obj) → List (Adapter Obj)
  all_registered [] = []
  all_registered (registered a ∷ calls) = a ∷ all_registered calls
  all_registered (resolved x ∷ calls) = all_registered calls

  -- The list is sorted where the flag says so.
  abbrev pub IsOrdered : Registry Obj → Type 0
  IsOrdered r = r.is_sorted ≡ true → Descending r.adapters

  of_priority-append :
      (n : ℕ) (l m : List (Adapter Obj))
      → of_priority n (l ++ m) ≡ of_priority n l ++ of_priority n m
  unfolding of_priority
  of_priority-append n [] m = refl
  of_priority-append n (a ∷ l) m = ground (arith, of_priority-append n l m)

  ensure_sorted_lem :
      (r : Registry Obj)
      → IsOrdered r
      → Descending (ensure_sorted r).adapters
        × ((n : ℕ) → of_priority n (ensure_sorted r).adapters ≡ of_priority n r.adapters)
  unfolding ensure_sorted
  ensure_sorted_lem r h = elim (Bool-cases r.is_sorted) [
    | inl e ↦ rw e (h e, λ n. refl)
    | inr e ↦ rw e (sort-Descending r.adapters, λ n. of_priority-sort n r.adapters)
  ]

  after_resolve :
      (r : Registry Obj) (x : Obj) → ((resolve r x).1 ≡ r) ⊎ ((resolve r x).1 ≡ ensure_sorted r)
  unfolding resolve
  after_resolve r x = by_adapters r.adapters refl
    where
      by_adapters :
          (l : List (Adapter Obj))
          → r.adapters ≡ l
          → ((resolve r x).1 ≡ r) ⊎ ((resolve r x).1 ≡ ensure_sorted r)
      by_adapters [] e = inl (ground (arith, e))
      by_adapters (a ∷ l) e = inr (ground (arith, e))

  abbrev SameOrder : Registry Obj → Registry Obj → Type 0
  SameOrder r r' = IsOrdered r' × ((n : ℕ) → of_priority n r'.adapters ≡ of_priority n r.adapters)

  resolve-SameOrder : (r : Registry Obj) (x : Obj) → IsOrdered r → SameOrder r (resolve r x).1
  resolve-SameOrder r x h = elim (after_resolve r x) [
    | inl e ↦ subst (SameOrder r) (sym e) (h, λ n. refl)
    | inr e ↦
        let (down, same) = ensure_sorted_lem r h in subst (SameOrder r) (sym e) (λ s. down, same)
  ]

  run_lem :
      (calls : List (Call Obj)) (r : Registry Obj)
      → IsOrdered r
      → IsOrdered (run calls r)
        × ((n : ℕ)
            → of_priority n (run calls r).adapters
              ≡ of_priority n (r.adapters ++ all_registered calls))
  unfolding run all_registered register
  run_lem [] r h = (h, λ n. rw append-nil refl)
  run_lem (registered a ∷ calls) r h =
      let (ordered, same) = run_lem calls (register a r) (λ s. absurd (ground (arith, s))) in
      (
        ordered,
        λ n. same n ∙ ap (of_priority n) (append_assoc r.adapters (a ∷ []) (all_registered calls)),
      )
  run_lem (resolved x ∷ calls) r h =
      let (kept, same) = resolve-SameOrder r x h in
      let (ordered, same') = run_lem calls (resolve r x).1 kept in
      (
        ordered,
        λ n. ground (
          arith,
          same n,
          same' n,
          of_priority-append n (resolve r x).1.adapters (all_registered calls),
          of_priority-append n r.adapters (all_registered calls),
        ),
      )

  -- Whenever adapters have been registered and results resolved, in any order, from a module without
  -- adapters: the adapters are asked in descending priority, those of the same priority in the order
  -- of their registration, and none is lost or asked twice.
  pub ensure_sorted-run :
      (calls : List (Call Obj))
      → let r = ensure_sorted (run calls (record { adapters = []; is_sorted = false })) in
        Descending r.adapters
        × ((n : ℕ) → of_priority n r.adapters ≡ of_priority n (all_registered calls))
  ensure_sorted-run calls =
      let (ordered, same) =
        run_lem calls (record { adapters = []; is_sorted = false })
          (λ s. absurd (ground (arith, s))) in
      let (down, same') =
        ensure_sorted_lem (run calls (record { adapters = []; is_sorted = false })) ordered in
      (down, λ n. same' n ∙ same n)
