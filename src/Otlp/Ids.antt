-- ===== src/Otlp/Ids.antt =====
-- The ids that hexadecimal digits give: they fit in 128 and 64 bits.
use Prim.Native.Char.{Char, code}
use rastir.Base.{
  ℕ, zero, suc, ◌+◌, ◌*◌, ◌≤◌, String, true, false, ◌≡◌, ◌≢◌, refl, ap, ◌∙◌, some, arith, ◌==◌,
  Bool-cases, inl, inr, Bool, ◌&&◌, Option-cases,
}
use rastir.Base.Integers.{pos}
use rastir.Dict.{is_some}
use rastir.Text.{is_white, text_take, text_rstrip}
use rastir.Text.Parts.{Solid, Solid-cons, text_strip_of_first}
use rastir.Text.Hex.{
  digit_value, read_digits, read_unsigned, read_signed, int16, positive, read_prefixed,
}

-- Each character is a hexadecimal digit.
abbrev pub IsDigits : String → Type 0
IsDigits String.[] = Unit
IsDigits (String.◌∷◌ c s) = ((d : ℕ) × (digit_value (code c) ≡ some d)) × IsDigits s

abbrev pub all_digits : String → Bool
all_digits String.[] = true
all_digits (String.◌∷◌ c s) = is_some (digit_value (code c)) && all_digits s

pub all_digits-IsDigits : (s : String) → all_digits s ≡ true → IsDigits s
all_digits-IsDigits String.[] h = tt
all_digits-IsDigits (String.◌∷◌ c s) h = elim (Option-cases (digit_value (code c))) [
  | inl e ↦ absurd (ground (arith, e, h))
  | inr (d, e) ↦ ((d, e), all_digits-IsDigits s (ground (arith, e, h)))
]

record Plain (n : ℕ) : Type 0 where
  white : is_white n ≡ false
  minus : (n == b'-') ≡ false
  plus : (n == b'+') ≡ false
  small_x : (n == b'x') ≡ false
  large_x : (n == b'X') ≡ false

digit-Plain : (n d : ℕ) → digit_value n ≡ some d → Plain n
unfolding digit_value is_white
digit-Plain n d h = record {
  white = ground (arith, h);
  minus = ground (arith, h);
  plus = ground (arith, h);
  small_x = ground (arith, h);
  large_x = ground (arith, h);
}

digit-le : (n d : ℕ) → digit_value n ≡ some d → d ≤ 15
unfolding digit_value
digit-le n d h = ground (arith, h)

text_take-IsDigits : (k : ℕ) (s : String) → IsDigits s → IsDigits (text_take k s)
unfolding text_take
text_take-IsDigits zero s h = tt
text_take-IsDigits (suc k) String.[] h = tt
text_take-IsDigits (suc k) (String.◌∷◌ c s) (h, hs) = (h, text_take-IsDigits k s hs)

digits-Solid : (c : Char) (s : String) → IsDigits (String.◌∷◌ c s) → Solid (String.◌∷◌ c s)
unfolding text_rstrip
digits-Solid c String.[] ((d, h), hs) = record {
  kept = rw ((digit-Plain (code c) d h).white) refl;
  there = cc;
}
digits-Solid c (String.◌∷◌ e s) (h, hs) = Solid-cons c (String.◌∷◌ e s) (digits-Solid e s hs)

read_prefixed_of_digits :
    (c : Char) (s : String) → IsDigits s → read_prefixed c s ≡ read_digits false 0 (String.◌∷◌ c s)
read_prefixed_of_digits c String.[] h = refl
read_prefixed_of_digits c (String.◌∷◌ e s) ((d, h), hs) =
    let second = digit-Plain (code e) d h in
    elim (Bool-cases (code c == b'0')) [
      | inl is ↦ rw (is, second.small_x, second.large_x) refl
      | inr is ↦ rw is refl
    ]

-- Blanks, signs and prefixes do not come up.
int16_of_digits :
    (c : Char) (s : String)
    → IsDigits (String.◌∷◌ c s)
    → int16 (String.◌∷◌ c s) ≡ positive (read_digits false 0 (String.◌∷◌ c s))
unfolding int16 read_signed read_unsigned
int16_of_digits c s ((d, h), hs) =
    let first = digit-Plain (code c) d h in
    let whole = text_strip_of_first c s first.white (digits-Solid c s ((d, h), hs)).kept in
    rw (whole, first.minus, first.plus) (ap positive (read_prefixed_of_digits c s hs))

-- The largest number that `k` digits behind `n` give.
abbrev pub most : ℕ → ℕ → ℕ
most zero n = n
most (suc k) n = most k (n * 16 + 15)

most-le : (k m n : ℕ) → m ≤ n → most k m ≤ most k n
most-le zero m n h = h
most-le (suc k) m n h = most-le k (m * 16 + 15) (n * 16 + 15) (omega (arith, h))

le-most : (k n : ℕ) → n ≤ most k n
le-most zero n = omega arith
le-most (suc k) n = omega (arith, le-most k (n * 16 + 15))

read_digits-le :
    (k n : ℕ) (s : String)
    → IsDigits s
    → (m : ℕ) × (read_digits true n (text_take k s) ≡ some m) × (m ≤ most k n)
unfolding read_digits text_take
read_digits-le zero n s h = (n, refl, omega arith)
read_digits-le (suc k) n String.[] h = (n, refl, le-most (suc k) n)
read_digits-le (suc k) n (String.◌∷◌ c s) ((d, h), hs) =
    let (m, is, le) = read_digits-le k (n * 16 + d) s hs in
    let digit = digit-le (code c) d h in
    let bound = most-le k (n * 16 + d) (n * 16 + 15) (omega (arith, digit)) in
    (m, rw (h, read_digits) is, omega (arith, le, bound))

-- What the exporter reads of an id.
pub int16-text_take :
    (k : ℕ) (s : String)
    → IsDigits s
    → s ≢ ""
    → (m : ℕ) × (int16 (text_take (suc k) s) ≡ some (pos m)) × (m ≤ most (suc k) 0)
unfolding read_digits text_take
int16-text_take k String.[] h there = absurd (there refl)
int16-text_take k (String.◌∷◌ c s) ((d, h), hs) there =
    let (m, is, le) = read_digits-le k (0 * 16 + d) s hs in
    let digit = digit-le (code c) d h in
    let bound = most-le k (0 * 16 + d) 15 (omega (arith, digit)) in
    let read = int16_of_digits c (text_take k s) ((d, h), text_take-IsDigits k s hs) in
    let value : read_digits false 0 (String.◌∷◌ c (text_take k s)) ≡ some m =
      rw (h, read_digits) is in
    (m, read ∙ ap positive value, omega (arith, le, bound))
