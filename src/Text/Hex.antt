-- ===== src/Text/Hex.antt =====
-- Python's `int(text, 16)`, for src/rastir/server/otlp_exporter.py and the sampling of
-- src/rastir/server/ingestion.py: white space around the number, a
-- sign, the prefix `0x`, and single underscores between digits are taken; `none` is the ValueError.
-- Digits of other scripts, which Python takes too, are not.
use Prim.Native.Char.{Char, code}
use rastir.Base.{
  ℕ, zero, suc, ◌+◌, ◌*◌, ◌-◌, String, Bool, true, false, ◌&&◌, ◌||◌, Option, none, some, leb, ◌==◌,
  if◌then◌else◌,
}
use rastir.Base.Integers.{ℤ, pos, negsuc}
use rastir.Text.{text_strip}

unfoldable pub digit_value : ℕ → Option ℕ
digit_value c =
    if leb b'0' c && leb c b'9'
    then some (c - b'0')
    else if leb b'a' c && leb c b'f'
    then some (c - b'a' + 10)
    else if leb b'A' c && leb c b'F'
    then some (c - b'A' + 10)
    else none

-- The digits behind the number `n`; the test says whether a digit stands before them.
unfoldable pub read_digits : Bool → ℕ → String → Option ℕ
unfolding digit_value
read_digits behind_digit n String.[] = if behind_digit then some n else none
read_digits behind_digit n (String.◌∷◌ c s) = elim (digit_value (code c)) [
  | some d ↦ read_digits true (n * 16 + d) s
  | none ↦ elim (behind_digit && code c == b'_') [ true ↦ read_digits false n s | false ↦ none ]
]

-- Behind the prefix one underscore may stand.
abbrev pub behind_prefix : String → Option ℕ
behind_prefix String.[] = none
behind_prefix (String.◌∷◌ c s) =
    if code c == b'_' then read_digits false 0 s else read_digits false 0 (String.◌∷◌ c s)

abbrev pub read_prefixed : Char → String → Option ℕ
read_prefixed c String.[] = read_digits false 0 (String.◌∷◌ c String.[])
read_prefixed c (String.◌∷◌ d s) =
    if code c == b'0' && (code d == b'x' || code d == b'X')
    then behind_prefix s
    else read_digits false 0 (String.◌∷◌ c (String.◌∷◌ d s))

unfoldable pub read_unsigned : String → Option ℕ
unfolding read_digits
read_unsigned String.[] = none
read_unsigned (String.◌∷◌ c s) = read_prefixed c s

abbrev pub negated : Option ℕ → Option ℤ
negated none = none
negated (some zero) = some (pos 0)
negated (some (suc n)) = some (negsuc n)

abbrev pub positive : Option ℕ → Option ℤ
positive none = none
positive (some n) = some (pos n)

unfoldable pub read_signed : String → Option ℤ
unfolding read_unsigned
read_signed String.[] = none
read_signed (String.◌∷◌ c s) =
    if code c == b'-'
    then negated (read_unsigned s)
    else if code c == b'+'
    then positive (read_unsigned s)
    else positive (read_unsigned (String.◌∷◌ c s))

-- `int(s, 16)`
unfoldable pub int16 : String → Option ℤ
unfolding read_signed
int16 s = read_signed (text_strip s)
