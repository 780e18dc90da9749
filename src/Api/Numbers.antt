-- ===== src/Api/Numbers.antt =====
-- What `strconv.ParseInt` and package strings compute for the handlers, on the bytes of a text.
use convomeow.Base.{
  ℕ, zero, suc, ◌+◌, ◌-◌, ◌*◌, ◌^◌, ◌<◌, ◌≡◌, refl, Bool, true, false, ◌&&◌, ◌||◌, Option, none,
  some, [], ◌∷◌, ◌++◌, arith, leb, ◌==◌, if◌then◌else◌,
}
use convomeow.Base.Text.{Text, is_empty}

-- `negsuc n` is -(n + 1).
pub data ℤ : Type 0 where
  pos : ℕ → ℤ
  negsuc : ℕ → ℤ

abbrev pub is_digit : ℕ → Bool
is_digit c = leb b'0' c && leb c b'9'

-- The number that digits spell behind `n`; `none` on any other byte.
pub scan : ℕ → Text → Option ℕ
scan n [] = some n
scan n (c ∷ s) = if is_digit c then scan (n * 10 + (c - b'0')) s else none

-- `strconv.ParseUint(s, 10, 64)` before its range is checked.
pub magnitude : Text → Option ℕ
unfolding scan
magnitude [] = none
magnitude (c ∷ s) = scan 0 (c ∷ s)

abbrev up_to : ℕ → (ℕ → ℤ) → Option ℕ → Option ℤ
up_to bound sign none = none
up_to bound sign (some n) = if leb n bound then some (sign n) else none

abbrev negative : ℕ → ℤ
negative zero = pos 0
negative (suc n) = negsuc n

-- `strconv.ParseInt(s, 10, 64)`; `none` is an error, of the syntax or of the range.
unfoldable pub parse_int : Text → Option ℤ
unfolding magnitude
parse_int [] = none
parse_int (c ∷ s) =
    if c == b'-'
    then up_to (2 ^ 63) negative (magnitude s)
    else if c == b'+'
    then up_to (2 ^ 63 - 1) pos (magnitude s)
    else up_to (2 ^ 63 - 1) pos (magnitude (c ∷ s))

-- `strings.CutPrefix`
unfoldable pub strip_prefix : Text → Text → Option Text
strip_prefix [] s = some s
strip_prefix (c ∷ p) [] = none
strip_prefix (c ∷ p) (d ∷ s) = if c == d then strip_prefix p s else none

-- `strings.Cut` at a byte: what is before its first occurrence, and what is behind it.
unfoldable pub cut : ℕ → Text → Option (Text × Text)
cut b [] = none
cut b (c ∷ s) =
    if c == b then some ([], s) else elim (cut b s) [ none ↦ none | some r ↦ some (c ∷ r.0, r.1) ]

abbrev pub has_byte : ℕ → Text → Bool
has_byte b [] = false
has_byte b (c ∷ s) = c == b || has_byte b s

abbrev pub all_digits : Text → Bool
all_digits [] = true
all_digits (c ∷ s) = is_digit c && all_digits s

-- The number that digits spell, with no bound.
abbrev pub value : ℕ → Text → ℕ
value n [] = n
value n (c ∷ s) = value (n * 10 + (c - b'0')) s

scan_digits : (n : ℕ) (s : Text) → all_digits s ≡ true → scan n s ≡ some (value n s)
unfolding scan
scan_digits n [] h = refl
scan_digits n (c ∷ s) h = ground (arith, scan_digits (n * 10 + (c - b'0')) s)

-- Digits that spell a number below 2^63 are read as that number.
pub parse_int_digits :
    (s : Text)
    → all_digits s ≡ true
    → is_empty s ≡ false
    → value 0 s < 2 ^ 63
    → parse_int s ≡ some (pos (value 0 s))
unfolding parse_int
parse_int_digits [] h ne lt = cc
parse_int_digits (c ∷ s) h ne lt = ground (arith, scan_digits 0 (c ∷ s) h)

pub cut_digits :
    (s rest : Text) → all_digits s ≡ true → cut b'-' (s ++ b'-' ∷ rest) ≡ some (s, rest)
unfolding cut
cut_digits [] rest h = refl
cut_digits (c ∷ s) rest h = ground (arith, cut_digits s rest)

pub has_byte_digits : (b : ℕ) (s : Text) → b < b'0' → all_digits s ≡ true → has_byte b s ≡ false
has_byte_digits b [] lt h = refl
has_byte_digits b (c ∷ s) lt h = ground (arith, has_byte_digits b s lt)

pub has_byte-append : (b : ℕ) (s t : Text) → has_byte b (s ++ t) ≡ (has_byte b s || has_byte b t)
has_byte-append b [] t = refl
has_byte-append b (c ∷ s) t = ground (arith, has_byte-append b s t)

pub strip_prefix-append : (p s : Text) → strip_prefix p (p ++ s) ≡ some s
unfolding strip_prefix
strip_prefix-append [] s = refl
strip_prefix-append (c ∷ p) s = ground (arith, strip_prefix-append p s)
