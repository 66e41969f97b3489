-- ===== src/Dict/Measure.antt =====
-- How writes change the number of entries and the sum of a measure of the values.
use rastir.Base.{
  ℕ, ◌+◌, String, ◌≡◌, refl, false, Option, none, some, [], ◌∷◌, ◌++◌, arith, length, eq_iff,
}
use rastir.Dict.{Dict, get, has, put, remove, move_entry, move_to_end, total, Distinct}
use rastir.Dict.Laws.{remove_of_absent}

module _ {ℓ} {V : Type ℓ} (w : V → ℕ) where
  pub total-append : (d e : Dict V) → total w (d ++ e) ≡ total w d + total w e
  total-append [] e = omega arith
  total-append ((k, v) ∷ d) e = omega (arith, total-append d e)

  pub total-put_new :
      (k : String) (v : V) (d : Dict V) → has k d ≡ false → total w (put k v d) ≡ total w d + w v
  unfolding put has get
  total-put_new k v [] h = omega arith
  total-put_new k v ((j, u) ∷ d) h = ground (arith, total-put_new k v d)

  pub total-put_old :
      (k : String) (v u : V) (d : Dict V)
      → get k d ≡ some u
      → total w (put k v d) + w u ≡ total w d + w v
  unfolding put get
  total-put_old k v u [] h = cc
  total-put_old k v u ((j, x) ∷ d) h = ground (arith, total-put_old k v u d)

  pub total-remove :
      (k : String) (u : V) (d : Dict V)
      → Distinct d
      → get k d ≡ some u
      → total w (remove k d) + w u ≡ total w d
  unfolding get remove
  total-remove k u [] h e = cc
  total-remove k u ((j, x) ∷ d) h e =
      ground (arith, total-remove k u d h.1, eq_iff j k, remove_of_absent k d, h.0)

  total-move_entry :
      (k : String) (o : Option V) (d : Dict V)
      → Distinct d
      → get k d ≡ o
      → total w (move_entry o k d) ≡ total w d
  unfolding move_entry
  total-move_entry k none d h e = refl
  total-move_entry k (some v) d h e =
      omega (arith, total-append (remove k d) ((k, v) ∷ []), total-remove k v d h e)

  pub total-move_to_end :
      (k : String) (d : Dict V) → Distinct d → total w (move_to_end k d) ≡ total w d
  unfolding move_to_end
  total-move_to_end k d h = total-move_entry k (get k d) d h refl

module _ {ℓ} {V : Type ℓ} where
  pub length-total : (d : Dict V) → length d ≡ total (λ v. 1) d
  length-total [] = refl
  length-total (e ∷ d) = omega (arith, length-total d)

  pub length-put_new :
      (k : String) (v : V) (d : Dict V) → has k d ≡ false → length (put k v d) ≡ length d + 1
  length-put_new k v d h =
      omega (arith, length-total d, length-total (put k v d), total-put_new (λ (x : V). 1) k v d h)

  pub length-put_old :
      (k : String) (v u : V) (d : Dict V) → get k d ≡ some u → length (put k v d) ≡ length d
  length-put_old k v u d h =
      omega
        (arith, length-total d, length-total (put k v d), total-put_old (λ (x : V). 1) k v u d h)

  pub length-remove :
      (k : String) (u : V) (d : Dict V)
      → Distinct d
      → get k d ≡ some u
      → length (remove k d) + 1 ≡ length d
  length-remove k u d h e =
      omega
        (arith, length-total d, length-total (remove k d), total-remove (λ (x : V). 1) k u d h e)

  pub length-move_to_end :
      (k : String) (d : Dict V) → Distinct d → length (move_to_end k d) ≡ length d
  length-move_to_end k d h = omega (
    arith,
    length-total d,
    length-total (move_to_end k d),
    total-move_to_end (λ (x : V). 1) k d h,
  )
