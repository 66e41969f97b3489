-- ===== src/Text.antt =====
-- Python's texts as the server measures, cuts and searches them.
pub mod Parts
pub mod Hex
use Prim.Native.Char.{Char, code}
use rastir.Base.{
  ℕ, zero, suc, ◌+◌, ◌≤◌, String, Bool, true, false, ◌&&◌, ◌||◌, List, [], ◌∷◌, arith, leb, ◌==◌,
  if◌then◌else◌,
}

-- The code points of a text.
unfoldable pub codes : String → List ℕ
codes String.[] = []
codes (String.◌∷◌ c s) = code c ∷ codes s

-- `len(s)`
unfoldable pub text_length : String → ℕ
text_length String.[] = 0
text_length (String.◌∷◌ c s) = suc (text_length s)

-- `s[:n]`
unfoldable pub text_take : ℕ → String → String
text_take zero s = String.[]
text_take (suc n) String.[] = String.[]
text_take (suc n) (String.◌∷◌ c s) = String.◌∷◌ c (text_take n s)

-- `s[n:]`
unfoldable pub text_drop : ℕ → String → String
text_drop zero s = s
text_drop (suc n) String.[] = String.[]
text_drop (suc n) (String.◌∷◌ c s) = text_drop n s

-- `list(s)`
unfoldable pub text_chars : String → List String
text_chars String.[] = []
text_chars (String.◌∷◌ c s) = String.◌∷◌ c String.[] ∷ text_chars s

-- `s.lower()` on the code points of an ASCII text
unfoldable pub lower : List ℕ → List ℕ
lower [] = []
lower (c ∷ s) = (if leb b'A' c && leb c b'Z' then c + 32 else c) ∷ lower s

unfoldable pub is_prefix : List ℕ → List ℕ → Bool
is_prefix [] s = true
is_prefix (c ∷ p) [] = false
is_prefix (c ∷ p) (d ∷ s) = c == d && is_prefix p s

-- `p in s`
unfoldable pub occurs : List ℕ → List ℕ → Bool
unfolding is_prefix
occurs p [] = is_prefix p []
occurs p (c ∷ s) = is_prefix p (c ∷ s) || occurs p s

-- the white space of `str.isspace`
unfoldable pub is_white : ℕ → Bool
is_white c =
    (leb 9 c && leb c 13)
    || (leb 28 c && leb c 32)
    || c == 133
    || c == 160
    || c == 5760
    || (leb 8192 c && leb c 8202)
    || c == 8232
    || c == 8233
    || c == 8239
    || c == 8287
    || c == 12288

unfoldable pub text_lstrip : String → String
text_lstrip String.[] = String.[]
text_lstrip (String.◌∷◌ c s) =
    let rest = text_lstrip s in if is_white (code c) then rest else String.◌∷◌ c s

-- `c` in front of a text, or nothing where both are white
abbrev pub keep_end : Bool → Char → String → String
keep_end true c String.[] = String.[]
keep_end true c (String.◌∷◌ d s) = String.◌∷◌ c (String.◌∷◌ d s)
keep_end false c s = String.◌∷◌ c s

unfoldable pub text_rstrip : String → String
text_rstrip String.[] = String.[]
text_rstrip (String.◌∷◌ c s) = keep_end (is_white (code c)) c (text_rstrip s)

-- `s.strip()`
unfoldable pub text_strip : String → String
unfolding text_lstrip text_rstrip
text_strip s = text_rstrip (text_lstrip s)

-- a character in front of the first part
abbrev pub onto_first : Char → List String → List String
onto_first c [] = String.◌∷◌ c String.[] ∷ []
onto_first c (part ∷ parts) = String.◌∷◌ c part ∷ parts

-- `s.split(sep)` for a separator of one character
unfoldable pub text_split : ℕ → String → List String
text_split sep String.[] = String.[] ∷ []
text_split sep (String.◌∷◌ c s) =
    let parts = text_split sep s in if code c == sep then String.[] ∷ parts else onto_first c parts

-- `s.replace(c, "")` for a text of one character
unfoldable pub text_without : ℕ → String → String
text_without sep String.[] = String.[]
text_without sep (String.◌∷◌ c s) =
    let rest = text_without sep s in if code c == sep then rest else String.◌∷◌ c rest

-- `s.ljust(n, "0")`
unfoldable pub zero_fill : ℕ → String → String
zero_fill zero s = s
zero_fill (suc n) String.[] = String.◌∷◌ "0" (zero_fill n String.[])
zero_fill (suc n) (String.◌∷◌ c s) = String.◌∷◌ c (zero_fill n s)

pub length-text_take-le : (n : ℕ) (s : String) → text_length (text_take n s) ≤ n
unfolding text_length text_take
length-text_take-le zero s = omega arith
length-text_take-le (suc n) String.[] = omega arith
length-text_take-le (suc n) (String.◌∷◌ c s) = omega (arith, length-text_take-le n s)
