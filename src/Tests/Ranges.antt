-- ===== src/Tests/Ranges.antt =====
-- Byte ranges of media, as browsers ask for them.
use convomeow.Base.{ℕ, ◌+◌, ◌≤◌, ◌≡◌, refl}
use convomeow.Base.Text.{codes}
use convomeow.Core.{ok, err, invalid}
use convomeow.Api.Numbers.{parse_int, strip_prefix, cut}
use convomeow.Api.Ranges.{Span, parse_media_range}
use convomeow.Api.Ranges.Exact.{
  ByteRange, header, selects, is_in, parse_media_range-within, parse_media_range-selects,
}

first_bytes : parse_media_range (codes "bytes=0-99") 1_000 ≡ ok (0, 100)
unfolding parse_media_range parse_int strip_prefix cut
first_bytes = refl

last_bytes : parse_media_range (codes "bytes=-10") 1_000 ≡ ok (990, 10)
unfolding parse_media_range parse_int strip_prefix cut
last_bytes = refl

two_ranges : parse_media_range (codes "bytes=0-1,5-6") 1_000 ≡ err invalid
unfolding parse_media_range parse_int strip_prefix cut
two_ranges = refl

backwards : parse_media_range (codes "bytes=5--3") 1_000 ≡ err invalid
unfolding parse_media_range parse_int strip_prefix cut
backwards = refl

parse_media_range-within_example : (1 ≤ 10) × (990 + 10 ≤ 1_000)
parse_media_range-within_example =
    parse_media_range-within (codes "bytes=-10") 1_000 990 10 last_bytes

abbrev asked : ByteRange
asked = ByteRange.bounded (codes "10") (codes "2000")

parse_media_range-selects_example :
    (span : Span) × (parse_media_range (header asked) 1_000 ≡ ok span)
    × ((i : ℕ) → is_in span i ≡ selects asked 1_000 i)
parse_media_range-selects_example = parse_media_range-selects asked 1_000 refl refl
