-- ===== src/Dict/Laws.antt =====
-- What is read after each write of a dictionary, and that writes keep the keys distinct.
use rastir.Base.{
  String, ◌≡◌, refl, ◌∙◌, true, false, ◌||◌, ◌&&◌, not, Option, none, some, [], ◌∷◌, ◌++◌, arith,
  str_eq, eq_iff, if◌then◌else◌,
}
use rastir.Dict.{Dict, get, has, put, remove, move_to_end, move_entry, Distinct}

pub eq_sym : (a b : String) → str_eq a b ≡ str_eq b a
eq_sym a b = ground (arith, eq_iff a b, eq_iff b a)

module _ {ℓ} {V : Type ℓ} where
  pub get-put :
      (k j : String) (v : V) (d : Dict V)
      → get j (put k v d) ≡ (if str_eq k j then some v else get j d)
  unfolding get put
  get-put k j v [] = refl
  get-put k j v ((i, w) ∷ d) = ground (arith, eq_iff k j, eq_iff i k, eq_iff i j, get-put k j v d)

  pub get-remove :
      (k j : String) (d : Dict V) → get j (remove k d) ≡ (if str_eq k j then none else get j d)
  unfolding get remove
  get-remove k j [] = ground arith
  get-remove k j ((i, v) ∷ d) = ground (arith, get-remove k j d, eq_iff i k, eq_iff i j, eq_iff k j)

  abbrev pub or_else : Option V → Option V → Option V
  or_else none o = o
  or_else (some v) o = some v

  pub get-append : (j : String) (d e : Dict V) → get j (d ++ e) ≡ or_else (get j d) (get j e)
  unfolding get
  get-append j [] e = refl
  get-append j ((i, v) ∷ d) e = ground (arith, get-append j d e)

  get-move_entry :
      (k j : String) (o : Option V) (d : Dict V) → get k d ≡ o → get j (move_entry o k d) ≡ get j d
  unfolding move_entry get
  get-move_entry k j none d h = refl
  get-move_entry k j (some v) d h =
      ground (arith, get-append j (remove k d) ((k, v) ∷ []), get-remove k j d, eq_iff k j)

  pub get-move_to_end : (k j : String) (d : Dict V) → get j (move_to_end k d) ≡ get j d
  unfolding move_to_end
  get-move_to_end k j d = get-move_entry k j (get k d) d refl

  pub has_of_get : (k : String) (d : Dict V) {v : V} → get k d ≡ some v → has k d ≡ true
  unfolding has
  has_of_get k d h = rw h

  pub has-put : (k j : String) (v : V) (d : Dict V) → has j (put k v d) ≡ (str_eq k j || has j d)
  unfolding has
  has-put k j v d = ground (arith, get-put k j v d)

  pub has-remove : (k j : String) (d : Dict V) → has j (remove k d) ≡ (not (str_eq k j) && has j d)
  unfolding has
  has-remove k j d = ground (arith, get-remove k j d)

  pub has-append : (j : String) (d e : Dict V) → has j (d ++ e) ≡ (has j d || has j e)
  unfolding has
  has-append j d e = ground (arith, get-append j d e)

  pub has-move_to_end : (k j : String) (d : Dict V) → has j (move_to_end k d) ≡ has j d
  unfolding has
  has-move_to_end k j d = rw (get-move_to_end k j d)

  pub Distinct-put : (k : String) (v : V) (d : Dict V) → Distinct d → Distinct (put k v d)
  unfolding put has get
  Distinct-put k v [] h = (refl, tt)
  Distinct-put k v ((j, w) ∷ d) h =
      ground (arith, has-put k j v d, Distinct-put k v d h.1, eq_sym k j, eq_iff j k)

  pub Distinct-remove : (k : String) (d : Dict V) → Distinct d → Distinct (remove k d)
  unfolding remove
  Distinct-remove k [] h = tt
  Distinct-remove k ((j, w) ∷ d) h = ground (arith, has-remove k j d, Distinct-remove k d h.1)

  pub Distinct-append_one :
      (k : String) (v : V) (d : Dict V) → Distinct d → has k d ≡ false → Distinct (d ++ (k, v) ∷ [])
  unfolding has get
  Distinct-append_one k v [] h a = (refl, tt)
  Distinct-append_one k v ((j, w) ∷ d) h a =
      ground
        (arith, Distinct-append_one k v d h.1, get-append j d ((k, v) ∷ []), eq_sym k j, eq_iff j k)

  Distinct-move_entry :
      (k : String) (o : Option V) (d : Dict V) → Distinct d → Distinct (move_entry o k d)
  unfolding move_entry
  Distinct-move_entry k none d h = h
  Distinct-move_entry k (some v) d h =
      Distinct-append_one k v (remove k d) (Distinct-remove k d h)
        (ground (arith, has-remove k k d, eq_iff k k))

  pub Distinct-move_to_end : (k : String) (d : Dict V) → Distinct d → Distinct (move_to_end k d)
  unfolding move_to_end
  Distinct-move_to_end k d h = Distinct-move_entry k (get k d) d h

  -- Removing an absent key, and what an absent key has.
  pub get_of_absent : (k : String) (d : Dict V) → has k d ≡ false → get k d ≡ none
  unfolding has
  get_of_absent k d h = ground arith

  pub remove_of_absent : (k : String) (d : Dict V) → has k d ≡ false → remove k d ≡ d
  unfolding has get remove
  remove_of_absent k [] h = refl
  remove_of_absent k ((j, v) ∷ d) h = ground (arith, remove_of_absent k d)

  pub remove-put : (k : String) (v : V) (d : Dict V) → remove k (put k v d) ≡ remove k d
  unfolding remove put
  remove-put k v [] = ground (arith, eq_iff k k)
  remove-put k v ((j, w) ∷ d) = ground (arith, remove-put k v d, eq_iff j k, eq_iff k k)

  pub move_to_end_of_get :
      (k : String) (v : V) (d : Dict V)
      → get k d ≡ some v
      → move_to_end k d ≡ remove k d ++ (k, v) ∷ []
  unfolding move_to_end
  move_to_end_of_get k v d h = rw h

  -- Writing a key and moving it to the end.
  pub move_to_end-put :
      (k : String) (v : V) (d : Dict V) → move_to_end k (put k v d) ≡ remove k d ++ (k, v) ∷ []
  move_to_end-put k v d =
      move_to_end_of_get k v (put k v d) (ground (arith, get-put k k v d, eq_iff k k))
      ∙ rw (remove-put k v d)

  -- A new key goes to the end.
  pub put_of_absent :
      (k : String) (v : V) (d : Dict V) → has k d ≡ false → put k v d ≡ d ++ (k, v) ∷ []
  unfolding put has get
  put_of_absent k v [] h = refl
  put_of_absent k v ((j, w) ∷ d) h = ground (arith, put_of_absent k v d)

  pub absent_of_get : (k : String) (d : Dict V) → get k d ≡ none → has k d ≡ false
  unfolding has
  absent_of_get k d h = rw h
