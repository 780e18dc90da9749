-- ===== src/Api/Ranges.antt =====
-- internal/api/native/v1/media.go: `parseMediaRange`.
pub mod Exact
use convomeow.Base.{ℕ, ◌+◌, ◌-◌, ◌&&◌, ◌||◌, Option, none, some, ltb, leb, if◌then◌else◌}
use convomeow.Base.Text.{Text, is_empty, codes}
use convomeow.Core.{Result, ok, err, invalid, ◌>>=◌, ◌>>◌}
use convomeow.Api.Numbers.{ℤ, pos, parse_int, strip_prefix, cut, has_byte}

-- The offset and the length of the bytes that a request asks for.
abbrev pub Span : Type 0
Span = ℕ × ℕ

-- `bytes=-n`: the last `n` bytes.
pub parse_suffix : Option ℤ → ℕ → Result Span
parse_suffix (some (pos n)) size =
    if ltb n 1 then err invalid else let n = (if ltb size n then size else n) in ok (size - n, n)
parse_suffix _ size = err invalid

-- The end of a range with a start.
pub parse_end : Text → ℕ → ℕ → Result ℕ
parse_end end_text start size =
    if is_empty end_text then ok (size - 1) else elim (parse_int end_text) [
      | some (pos end) ↦
          if ltb end start then err invalid else ok (if leb size end then size - 1 else end)
      | _ ↦ err invalid
    ]

pub parse_start : Option ℤ → Text → ℕ → Result Span
unfolding parse_end
parse_start (some (pos start)) end_text size =
    if leb size start
    then err invalid
    else parse_end end_text start size >>= λ end. ok (start, end - start + 1)
parse_start _ end_text size = err invalid

pub parse_bounds : Option (Text × Text) → ℕ → Result Span
unfolding parse_suffix parse_start
parse_bounds none size = err invalid
parse_bounds (some (start_text, end_text)) size =
    if is_empty start_text && is_empty end_text
    then err invalid
    else if is_empty start_text
    then parse_suffix (parse_int end_text) size
    else parse_start (parse_int start_text) end_text size

-- `parseMediaRange`
unfoldable pub parse_media_range : Text → ℕ → Result Span
unfolding parse_bounds
parse_media_range raw size = elim (strip_prefix (codes "bytes=") raw) [
  | none ↦ err invalid
  | some rest ↦
      if ltb size 1 || has_byte b',' raw then err invalid else parse_bounds (cut b'-' rest) size
]
