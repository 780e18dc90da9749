-- ===== src/App/Webp/Header.antt =====
-- The header that a lossless image of given dimensions has is read back.
use convomeow.Base.{
  ℕ, suc, ◌+◌, ◌*◌, ◌/◌, ◌%◌, ◌≤◌, ◌<◌, ◌≡◌, ◌||◌, not, [], ◌∷◌, ◌++◌, arith, ltb, length,
}
use convomeow.Base.Text.{Text, text_eq}
use convomeow.Core.{ok, invalid, fail_if, >>=-eq-ok}
use convomeow.App.Webp.{
  bytes, riff, webp, vp8l, chunk_dimensions, in_bounds, static_webp_dimensions,
}

-- The bytes of a lossless image from its signature on, less one in each dimension: 14 bits of the
-- width and then 14 of the height, little-endian, then the flag of transparency and three bits of
-- the version, `flags`, and the data.
abbrev lossless_data : ℕ → ℕ → ℕ → Text → Text
lossless_data w h flags pixels =
    47 ∷ (w % 256) ∷ (w / 256 + h % 4 * 64) ∷ (h / 4 % 256) ∷ (h / 1_024 + flags * 16) ∷ pixels

-- The file of a lossless image, with four bytes each for the sizes of the file and of its chunk.
abbrev pub lossless_header : (ℕ → ℕ) → (ℕ → ℕ) → ℕ → ℕ → ℕ → Text → Text
lossless_header file chunk w h flags pixels =
    riff
    ++ (file 0 ∷ file 1 ∷ file 2 ∷ file 3 ∷ [])
    ++ webp
    ++ vp8l
    ++ (chunk 0 ∷ chunk 1 ∷ chunk 2 ∷ chunk 3 ∷ lossless_data w h flags pixels)

width_bits : (w h : ℕ) → w < 16_384 → 1 + w % 256 + (w / 256 + h % 4 * 64) % 64 * 256 ≡ 1 + w
width_bits w h v = omega arith

height_bits :
    (w h flags : ℕ)
    → w < 16_384
    → h < 16_384
    → 1 + (w / 256 + h % 4 * 64) / 64 + h / 4 % 256 * 4 + (h / 1_024 + flags * 16) % 16 * 1_024
      ≡ 1 + h
height_bits w h flags v u = omega arith

-- The header of a lossless image of any dimensions up to 16,384 is read back as these dimensions,
-- with or without transparency, whatever its version and data, of which it has at least 5 bytes.
pub lossless_round_trip :
    (file chunk : ℕ → ℕ) (w h flags : ℕ) (pixels : Text)
    → w < 16_384
    → h < 16_384
    → 5 ≤ length pixels
    → static_webp_dimensions (lossless_header file chunk w h flags pixels) ≡ ok (suc w, suc h)
unfolding static_webp_dimensions chunk_dimensions text_eq
lossless_round_trip file chunk w h flags pixels v u long =
    rw (width_bits w h v, height_bits w h flags v u) (ground arith)

-- Dimensions that are read lie between 1 and 16,384.
dimensions_bounded :
    (header : Text) (width height : ℕ)
    → static_webp_dimensions header ≡ ok (width, height)
    → (1 ≤ width) × (width ≤ 16_384) × (1 ≤ height) × (height ≤ 16_384)
unfolding static_webp_dimensions
dimensions_bounded header width height e =
    let (u, f, g) =
      >>=-eq-ok
        (fail_if
          (ltb (length header) 30
            || (not (text_eq (bytes 0 4 header) riff) || not (text_eq (bytes 8 4 header) webp)))
          invalid)
        _ e in
    let (size, f2, g2) = >>=-eq-ok (chunk_dimensions header) _ g in
    let (u3, f3, g3) = >>=-eq-ok (fail_if (not (in_bounds size)) invalid) _ g2 in
    ground (arith, f3, g3)
