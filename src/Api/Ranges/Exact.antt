-- ===== src/Api/Ranges/Exact.antt =====
-- The bytes that a `Range` header selects, as RFC 9110 describes them, against `parse_media_range`.
use convomeow.Base.{
  ℕ, ◌+◌, ◌-◌, ◌^◌, ◌≤◌, ◌<◌, ◌≡◌, refl, ap, ◌∙◌, inl, inr, Bool, true, false, ◌&&◌, ◌||◌, not,
  Option, none, some, [], ◌∷◌, ◌++◌, arith, ltb, leb, if◌then◌else◌, Bool-cases, Option-cases,
}
use convomeow.Base.Text.{Text, is_empty, codes}
use convomeow.Core.{Result, ok, err, invalid, >>=-eq-ok}
use convomeow.Api.Numbers.{
  ℤ, pos, negsuc, parse_int, strip_prefix, strip_prefix-append, cut, has_byte, all_digits, value,
  parse_int_digits, cut_digits, has_byte_digits, has_byte-append,
}
use convomeow.Api.Ranges.{
  Span, parse_suffix, parse_end, parse_start, parse_bounds, parse_media_range,
}

-- One range of bytes, by the digits that stand in the header: `first-last`, `first-` and `-count`.
pub data ByteRange : Type 0 where
  bounded : Text → Text → ByteRange
  onward : Text → ByteRange
  suffix : Text → ByteRange

abbrev number_of : Text → ℕ
number_of s = value 0 s

abbrev pub is_number : Text → Bool
is_number s = all_digits s && (not (is_empty s) && ltb (number_of s) (2 ^ 63))

abbrev pub header : ByteRange → Text
header (bounded s e) = codes "bytes=" ++ (s ++ b'-' ∷ e)
header (onward s) = codes "bytes=" ++ (s ++ b'-' ∷ [])
header (suffix e) = codes "bytes=" ++ (b'-' ∷ e)

abbrev pub is_well_formed : ByteRange → Bool
is_well_formed (bounded s e) = is_number s && (is_number e && leb (number_of s) (number_of e))
is_well_formed (onward s) = is_number s
is_well_formed (suffix e) = is_number e

-- At least one byte is selected.
abbrev pub is_satisfiable : ByteRange → ℕ → Bool
is_satisfiable (bounded s e) size = ltb (number_of s) size
is_satisfiable (onward s) size = ltb (number_of s) size
is_satisfiable (suffix e) size = ltb 0 size && ltb 0 (number_of e)

-- The byte at `i` of `size` bytes is selected.
abbrev pub selects : ByteRange → ℕ → ℕ → Bool
selects (bounded s e) size i = leb (number_of s) i && (leb i (number_of e) && ltb i size)
selects (onward s) size i = leb (number_of s) i && ltb i size
selects (suffix e) size i = leb size (i + number_of e) && ltb i size

abbrev pub is_in : Span → ℕ → Bool
is_in span i = leb (span.0) i && ltb i (span.0 + span.1)

parse_end-bounds :
    (end_text : Text) (start size end : ℕ)
    → start < size
    → parse_end end_text start size ≡ ok end
    → (start ≤ end) × (end < size)
unfolding parse_end
parse_end-bounds end_text start size end lt h = ground arith

parse_suffix-bounds :
    (n : Option ℤ) (size o l : ℕ)
    → 0 < size
    → parse_suffix n size ≡ ok (o, l)
    → (1 ≤ l) × (o + l ≤ size)
unfolding parse_suffix
parse_suffix-bounds n size o l lt h = ground arith

parse_start-bounds :
    (n : Option ℤ) (end_text : Text) (size o l : ℕ)
    → parse_start n end_text size ≡ ok (o, l)
    → (1 ≤ l) × (o + l ≤ size)
unfolding parse_start
parse_start-bounds none end_text size o l h = cc
parse_start-bounds (some (negsuc n)) end_text size o l h = cc
parse_start-bounds (some (pos n)) end_text size o l h = elim (Bool-cases (leb size n)) [
  | inl out ↦ ground arith
  | inr inside ↦
      let (end, f, g) =
        >>=-eq-ok {W = Span} (parse_end end_text n size) (λ end. ok (n, end - n + 1)) {end = (o, l)}
          (ground arith) in
      ground (arith, parse_end-bounds end_text n size end)
]

parse_bounds-bounds :
    (parts : Option (Text × Text)) (size o l : ℕ)
    → 0 < size
    → parse_bounds parts size ≡ ok (o, l)
    → (1 ≤ l) × (o + l ≤ size)
unfolding parse_bounds
parse_bounds-bounds none size o l lt h = cc
parse_bounds-bounds (some (start_text, end_text)) size o l lt h = ground (
  arith,
  parse_suffix-bounds (parse_int end_text) size o l lt,
  parse_start-bounds (parse_int start_text) end_text size o l,
)

-- Whatever the header says, a range that is accepted is not empty and lies within the object.
pub parse_media_range-within :
    (raw : Text) (size o l : ℕ) → parse_media_range raw size ≡ ok (o, l) → (1 ≤ l) × (o + l ≤ size)
unfolding parse_media_range
parse_media_range-within raw size o l h = elim (Option-cases (strip_prefix (codes "bytes=") raw)) [
  | inl e ↦ cc (
    h,
    ap {B = Result Span}
        (λ r. elim r [
          | none ↦ err invalid
          | some rest ↦
              if ltb size 1 || has_byte b',' raw
              then err invalid
              else parse_bounds (cut b'-' rest) size
        ])
        e,
  )
  | inr (rest, e) ↦ ground (arith, e, parse_bounds-bounds (cut b'-' rest) size o l)
]

no_comma : (s : Text) → all_digits s ≡ true → has_byte b',' s ≡ false
no_comma s h = has_byte_digits b',' s (omega arith) h

-- The header of a number of digits is taken apart again.
parse-header :
    (s e : Text) (size : ℕ)
    → all_digits s ≡ true
    → all_digits e ≡ true
    → 0 < size
    → parse_media_range (codes "bytes=" ++ (s ++ b'-' ∷ e)) size ≡ parse_bounds (some (s, e)) size
unfolding parse_media_range
parse-header s e size hs he lt = ground (
  arith,
  strip_prefix-append (codes "bytes=") (s ++ b'-' ∷ e),
  has_byte-append b',' s (b'-' ∷ e),
  no_comma s hs,
  no_comma e he,
  cut_digits s e hs,
)

module _ (r : ByteRange) (size : ℕ) where
  -- What a header with a single, well-formed range gives.
  abbrev IsExact : Type 0
  IsExact =
      (span : Span) × (parse_media_range (header r) size ≡ ok span)
      × ((i : ℕ) → is_in span i ≡ selects r size i)

parse_number :
    (s : Text)
    → is_number s ≡ true
    → (parse_int s ≡ some (pos (number_of s))) × (all_digits s ≡ true) × (is_empty s ≡ false)
parse_number s h = (ground (arith, parse_int_digits s), ground arith, ground arith)

bounded_exact :
    (s e : Text) (size : ℕ)
    → is_well_formed (bounded s e) ≡ true
    → is_satisfiable (bounded s e) size ≡ true
    → IsExact (bounded s e) size
unfolding parse_bounds parse_start parse_end
bounded_exact s e size w h =
    let (p, ds, ns) = parse_number s (ground arith) in
    let (q, de, ne) = parse_number e (ground arith) in
    (
      (number_of s, (if leb size (number_of e) then size - 1 else number_of e) - number_of s + 1),
      parse-header s e size ds de (ground arith) ∙ ground (arith, p, q, ns, ne),
      λ i. ground arith,
    )

onward_exact :
    (s : Text) (size : ℕ)
    → is_well_formed (onward s) ≡ true
    → is_satisfiable (onward s) size ≡ true
    → IsExact (onward s) size
unfolding parse_bounds parse_start parse_end
onward_exact s size w h =
    let (p, ds, ns) = parse_number s w in
    (
      (number_of s, size - number_of s),
      parse-header s [] size ds refl (ground arith) ∙ ground (arith, p, ns),
      λ i. ground arith,
    )

suffix_exact :
    (e : Text) (size : ℕ)
    → is_well_formed (suffix e) ≡ true
    → is_satisfiable (suffix e) size ≡ true
    → IsExact (suffix e) size
unfolding parse_bounds parse_suffix
suffix_exact e size w h =
    let (p, ds, ns) = parse_number e w in
    (
      (
        size - (if ltb size (number_of e) then size else number_of e),
        (if ltb size (number_of e) then size else number_of e),
      ),
      parse-header [] e size refl ds (ground arith) ∙ ground (arith, p, ns),
      λ i. ground arith,
    )

-- A header with one well-formed range of numbers below 2^63, in any of its three forms, is accepted
-- if it selects a byte of the object, and what is sent are exactly the bytes that it selects:
-- those from the first number to the second, those from the number on, or that many last bytes.
pub parse_media_range-selects :
    (r : ByteRange) (size : ℕ)
    → is_well_formed r ≡ true
    → is_satisfiable r size ≡ true
    → (span : Span) × (parse_media_range (header r) size ≡ ok span)
      × ((i : ℕ) → is_in span i ≡ selects r size i)
parse_media_range-selects (bounded s e) size w h = bounded_exact s e size w h
parse_media_range-selects (onward s) size w h = onward_exact s size w h
parse_media_range-selects (suffix e) size w h = suffix_exact e size w h
