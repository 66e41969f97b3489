-- ===== src/Queue/Window.antt =====
-- What a bounded buffer keeps of a sequence: the first elements or the last.
use mathlib.Core.List.{append-nil}
use rastir.Base.{
  ℕ, zero, suc, ◌+◌, ◌-◌, ◌≤◌, ◌≡◌, refl, ◌∙◌, ap, List, [], ◌∷◌, ◌++◌, arith, length, take, drop,
  length-append, take_of_length-le, Bool, true, false, take-append, length-drop,
}

module _ {ℓ} {A : Type ℓ} where
  -- The last `n` elements.
  abbrev pub last : ℕ → List A → List A
  last n xs = drop (length xs - n) xs

  pub drop-append : (k : ℕ) (xs ys : List A) → k ≤ length xs → drop k (xs ++ ys) ≡ drop k xs ++ ys
  drop-append zero xs ys h = refl
  drop-append (suc k) [] ys h = absurd (omega arith)
  drop-append (suc k) (x ∷ xs) ys h = drop-append k xs ys (omega arith)

  pub drop-drop : (j k : ℕ) (xs : List A) → drop j (drop k xs) ≡ drop (j + k) xs
  drop-drop j zero xs = let e : j + 0 ≡ j = omega arith in rw e
  drop-drop zero (suc k) xs = let e : 0 + suc k ≡ suc k = omega arith in rw e
  drop-drop (suc j) (suc k) [] = let e : suc j + suc k ≡ suc (j + suc k) = omega arith in rw e
  drop-drop (suc j) (suc k) (x ∷ xs) =
      let e : suc j + suc k ≡ suc (suc j + k) = omega arith in rw e (drop-drop (suc j) k xs)

  -- To keep the last `n` of a grown window is to keep the last `n` of the whole.
  pub last-last : (n : ℕ) (xs ys : List A) → last n (last n xs ++ ys) ≡ last n (xs ++ ys)
  last-last n xs ys = rw (← drop-append k xs ys (omega arith)) (
      ap (λ j. drop j (drop k (xs ++ ys))) (omega (arith, grown, cut))
      ∙ drop-drop j k (xs ++ ys)
      ∙ ap (λ i. drop i (xs ++ ys)) (omega (arith, grown)))
    where
      k : ℕ
      k = length xs - n

      j : ℕ
      j = length xs - k + length ys - n

      cut : length (drop k (xs ++ ys)) ≡ length (xs ++ ys) - k
      cut = length-drop k (xs ++ ys)

      grown : length (xs ++ ys) ≡ length xs + length ys
      grown = length-append xs ys

  pub take-take_append : (n : ℕ) (xs ys : List A) → take n (take n xs ++ ys) ≡ take n (xs ++ ys)
  take-take_append zero xs ys = refl
  take-take_append (suc n) [] ys = refl
  take-take_append (suc n) (x ∷ xs) ys = ap (◌∷◌ x) (take-take_append n xs ys)

  pub last_of_fit : (n : ℕ) (xs : List A) → length xs ≤ n → last n xs ≡ xs
  last_of_fit n xs h = let e : length xs - n ≡ 0 = omega arith in rw e

  pub last_of_one_more : (n : ℕ) (x : A) (xs : List A) → length xs ≡ n → last n (x ∷ xs) ≡ xs
  last_of_one_more n x xs h = let e : suc (length xs) - n ≡ 1 = omega arith in rw e

  pub take_of_filled : (n : ℕ) (xs ys : List A) → length xs ≡ n → take n (xs ++ ys) ≡ xs
  take_of_filled n xs ys h =
      let e : n - length xs ≡ 0 = omega arith in
      take-append n xs ys (omega arith) ∙ rw (e, append-nil)

  -- The last `n` elements, or the first.
  abbrev pub keep : Bool → ℕ → List A → List A
  keep true n xs = last n xs
  keep false n xs = take n xs

  pub keep-keep :
      (newest : Bool) (n : ℕ) (xs ys : List A)
      → keep newest n (keep newest n xs ++ ys) ≡ keep newest n (xs ++ ys)
  keep-keep true n xs ys = last-last n xs ys
  keep-keep false n xs ys = take-take_append n xs ys

  pub keep_of_fit : (newest : Bool) (n : ℕ) (xs : List A) → length xs ≤ n → keep newest n xs ≡ xs
  keep_of_fit true n xs h = last_of_fit n xs h
  keep_of_fit false n xs h = take_of_length-le n xs h

  take-fits : (n : ℕ) (xs : List A) → length (take n xs) ≤ n
  take-fits zero xs = omega arith
  take-fits (suc n) [] = omega arith
  take-fits (suc n) (x ∷ xs) = omega (arith, take-fits n xs)

  pub length-keep : (newest : Bool) (n : ℕ) (xs : List A) → length (keep newest n xs) ≤ n
  length-keep true n xs = omega (arith, length-drop (length xs - n) xs)
  length-keep false n xs = take-fits n xs
