-- ===== src/App/Webp.antt =====
-- internal/app/uploads.go: the dimensions in the header of a still WebP image.
pub mod Header
use convomeow.Core.{◌>>◌}
use convomeow.Core.{◌>>=◌}
use convomeow.Base.{
  ℕ, zero, suc, ◌+◌, ◌*◌, ◌/◌, ◌%◌, Bool, ◌||◌, not, [], ◌∷◌, ltb, ◌==◌, if◌then◌else◌, length,
}
use convomeow.Base.Text.{Text, text_eq}
use convomeow.Core.{Result, ok, err, invalid, fail_if}

-- `header[i]`; the length is checked before any byte is read.
abbrev pub byte : ℕ → Text → ℕ
byte i [] = 0
byte zero (b ∷ s) = b
byte (suc i) (b ∷ s) = byte i s

abbrev pub bytes : ℕ → ℕ → Text → Text
bytes i zero s = []
bytes i (suc n) s = byte i s ∷ bytes (suc i) n s

-- The texts that the header is compared with.
abbrev pub riff : Text
riff = 82 ∷ 73 ∷ 70 ∷ 70 ∷ []

abbrev pub webp : Text
webp = 87 ∷ 69 ∷ 66 ∷ 80 ∷ []

abbrev pub vp8x : Text
vp8x = 86 ∷ 80 ∷ 56 ∷ 88 ∷ []

abbrev pub vp8 : Text
vp8 = 86 ∷ 80 ∷ 56 ∷ 32 ∷ []

abbrev pub vp8l : Text
vp8l = 86 ∷ 80 ∷ 56 ∷ 76 ∷ []

abbrev start_code : Text
start_code = 157 ∷ 1 ∷ 42 ∷ []

-- `binary.LittleEndian.Uint32(header[16:20])`
abbrev chunk_size : Text → ℕ
chunk_size h = byte 16 h + byte 17 h * 256 + byte 18 h * 65_536 + byte 19 h * 16_777_216

abbrev is_animated : Text → Bool
is_animated h = byte 20 h / 2 % 2 == 1

abbrev extended : Text → Result (ℕ × ℕ)
extended h = do
  fail_if (ltb (chunk_size h) 10 || is_animated h) invalid
  ok (
    1 + byte 24 h + byte 25 h * 256 + byte 26 h * 65_536,
    1 + byte 27 h + byte 28 h * 256 + byte 29 h * 65_536,
  )

abbrev lossy : Text → Result (ℕ × ℕ)
lossy h = do
  fail_if (not (text_eq (bytes 23 3 h) start_code)) invalid
  ok ((byte 26 h + byte 27 h * 256) % 16_384, (byte 28 h + byte 29 h * 256) % 16_384)

abbrev lossless : Text → Result (ℕ × ℕ)
lossless h = do
  fail_if (not (byte 20 h == 47)) invalid
  ok (
    1 + byte 21 h + byte 22 h % 64 * 256,
    1 + byte 22 h / 64 + byte 23 h * 4 + byte 24 h % 16 * 1_024,
  )

-- The switch over the kinds of chunk.
unfoldable pub chunk_dimensions : Text → Result (ℕ × ℕ)
chunk_dimensions h =
    if text_eq (bytes 12 4 h) vp8x
    then extended h
    else if text_eq (bytes 12 4 h) vp8
    then lossy h
    else if text_eq (bytes 12 4 h) vp8l
    then lossless h
    else err invalid

abbrev pub in_bounds : ℕ × ℕ → Bool
in_bounds (width, height) =
    not (width == 0 || (height == 0 || (ltb 16_384 width || ltb 16_384 height)))

-- `staticWebPDimensions`
unfoldable pub static_webp_dimensions : Text → Result (ℕ × ℕ)
unfolding chunk_dimensions
static_webp_dimensions h = do
  fail_if
      (ltb (length h) 30 || (not (text_eq (bytes 0 4 h) riff) || not (text_eq (bytes 8 4 h) webp)))
      invalid
  size ← chunk_dimensions h
  fail_if (not (in_bounds size)) invalid
  ok size
