-- ===== src/Text/Parts.antt =====
-- What stripping, splitting and filling give.
use Prim.Native.Char.{Char, code}
use Prim.Native.String.{◌++◌ as append}
use Prim.Native.String.append.{nil as append-nil, cons as append-cons}
use rastir.Base.{
  ℕ, zero, suc, ◌≤◌, String, ◌≡◌, refl, sym, ap, ◌∙◌, subst, ◌≢◌, false, ◌∷◌, arith, ◌==◌,
  Bool-cases, inl, inr, min,
}
use rastir.Text.{
  is_white, text_length, text_take, text_rstrip, text_lstrip, text_strip, text_split, text_without,
  zero_fill, keep_end,
}

-- No character has the code.
abbrev pub Lacks : ℕ → String → Type 0
Lacks sep String.[] = Unit
Lacks sep (String.◌∷◌ c s) = (code c ≢ sep) × Lacks sep s

pub text_without-Lacks : (sep : ℕ) (s : String) → Lacks sep (text_without sep s)
unfolding text_without
text_without-Lacks sep String.[] = tt
text_without-Lacks sep (String.◌∷◌ c s) = elim (Bool-cases (code c == sep)) [
  | inl e ↦ rw e (text_without-Lacks sep s)
  | inr e ↦ rw e ((ground (arith, e)), text_without-Lacks sep s)
]

pub text_take-Lacks : (sep n : ℕ) (s : String) → Lacks sep s → Lacks sep (text_take n s)
unfolding text_take
text_take-Lacks sep zero s h = tt
text_take-Lacks sep (suc n) String.[] h = tt
text_take-Lacks sep (suc n) (String.◌∷◌ c s) (h, hs) = (h, text_take-Lacks sep n s hs)

pub zero_fill-Lacks :
    (sep n : ℕ) (s : String) → b'0' ≢ sep → Lacks sep s → Lacks sep (zero_fill n s)
unfolding zero_fill
zero_fill-Lacks sep zero s h hs = hs
zero_fill-Lacks sep (suc n) String.[] h hs = (h, zero_fill-Lacks sep n String.[] h tt)
zero_fill-Lacks sep (suc n) (String.◌∷◌ c s) h (hc, hs) = (hc, zero_fill-Lacks sep n s h hs)

pub length-text_take-zero_fill :
    (n : ℕ) (s : String) → text_length (text_take n (zero_fill n s)) ≡ n
unfolding text_length text_take zero_fill
length-text_take-zero_fill zero s = refl
length-text_take-zero_fill (suc n) String.[] = ap suc (length-text_take-zero_fill n String.[])
length-text_take-zero_fill (suc n) (String.◌∷◌ c s) = ap suc (length-text_take-zero_fill n s)

pub length-zero_fill : (n : ℕ) (s : String) → text_length s ≤ n → text_length (zero_fill n s) ≡ n
unfolding text_length zero_fill
length-zero_fill zero String.[] h = refl
length-zero_fill zero (String.◌∷◌ c s) h = omega (arith, h)
length-zero_fill (suc n) String.[] h = ap suc (length-zero_fill n String.[] (omega arith))
length-zero_fill (suc n) (String.◌∷◌ c s) h = ap suc (length-zero_fill n s (omega (arith, h)))

pub zero_fill_of_length : (n : ℕ) (s : String) → n ≤ text_length s → zero_fill n s ≡ s
unfolding text_length zero_fill
zero_fill_of_length zero s h = refl
zero_fill_of_length (suc n) String.[] h = absurd (omega (arith, h))
zero_fill_of_length (suc n) (String.◌∷◌ c s) h =
    ap (String.◌∷◌ c) (zero_fill_of_length n s (omega (arith, h)))

pub text_take_of_length : (n : ℕ) (s : String) → text_length s ≤ n → text_take n s ≡ s
unfolding text_length text_take
text_take_of_length zero String.[] h = refl
text_take_of_length zero (String.◌∷◌ c s) h = absurd (omega (arith, h))
text_take_of_length (suc n) String.[] h = refl
text_take_of_length (suc n) (String.◌∷◌ c s) h =
    ap (String.◌∷◌ c) (text_take_of_length n s (omega (arith, h)))

pub length-text_take : (n : ℕ) (s : String) → text_length (text_take n s) ≡ min n (text_length s)
unfolding text_length text_take
length-text_take zero s = omega arith
length-text_take (suc n) String.[] = omega arith
length-text_take (suc n) (String.◌∷◌ c s) = omega (arith, length-text_take n s)

pub text_without_of_Lacks : (sep : ℕ) (s : String) → Lacks sep s → text_without sep s ≡ s
unfolding text_without
text_without_of_Lacks sep String.[] h = refl
text_without_of_Lacks sep (String.◌∷◌ c s) (h, hs) =
    ground (arith, text_without_of_Lacks sep s hs, h)

-- A text without separators is the first part.
pub text_split-append :
    (sep : ℕ) (c : Char) (s t : String)
    → code c ≡ sep
    → Lacks sep s
    → text_split sep (append s (String.◌∷◌ c t)) ≡ s ∷ text_split sep t
unfolding text_split
text_split-append sep c String.[] t is h = rw append-nil (ground (arith, is))
text_split-append sep c (String.◌∷◌ d s) t is (h, hs) =
    rw append-cons (ground (arith, text_split-append sep c s t is hs, h))

-- A text that is not empty and loses nothing at its end.
pub record Solid (s : String) : Type 0 where
  pub kept : text_rstrip s ≡ s
  pub there : s ≢ ""

pub Solid-cons : (c : Char) (s : String) → Solid s → Solid (String.◌∷◌ c s)
unfolding text_rstrip
Solid-cons c String.[] h = absurd (h.there refl)
Solid-cons c (String.◌∷◌ d s) h = record {
  kept =
      ap (keep_end (is_white (code c)) c) h.kept
      ∙ elim (Bool-cases (is_white (code c))) [ inl e ↦ rw e refl | inr e ↦ rw e refl ];
  there = cc;
}

-- A text that ends in one that loses nothing loses nothing.
pub Solid-append : (s t : String) → Solid t → Solid (append s t)
Solid-append String.[] t h = rw append-nil h
Solid-append (String.◌∷◌ d s) t h =
    subst Solid (sym (append-cons d s t)) (Solid-cons d (append s t) (Solid-append s t h))

pub text_strip_of_first :
    (c : Char) (s : String)
    → is_white (code c) ≡ false
    → text_rstrip (String.◌∷◌ c s) ≡ String.◌∷◌ c s
    → text_strip (String.◌∷◌ c s) ≡ String.◌∷◌ c s
unfolding text_strip text_lstrip
text_strip_of_first c s e h = rw e h

pub text_take-text_take : (n : ℕ) (s : String) → text_take n (text_take n s) ≡ text_take n s
unfolding text_take
text_take-text_take zero s = refl
text_take-text_take (suc n) String.[] = refl
text_take-text_take (suc n) (String.◌∷◌ c s) = ap (String.◌∷◌ c) (text_take-text_take n s)
