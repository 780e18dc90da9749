-- ===== src/Tests/Webp.antt =====
-- The headers of images.
use convomeow.Base.{◌≡◌, refl, arith, ℕ, ◌∷◌, []}
use convomeow.Base.Text.{text_eq, Text}
use convomeow.Core.{ok}
use convomeow.App.Webp.{static_webp_dimensions, chunk_dimensions}
use convomeow.App.Webp.Header.{lossless_header, lossless_round_trip}

abbrev four : ℕ → ℕ
four i = 9

abbrev pixels : Text
pixels = 1 ∷ 2 ∷ 3 ∷ 4 ∷ 5 ∷ []

lossless_round_trip_example :
    static_webp_dimensions (lossless_header four four 639 479 1 pixels) ≡ ok (640, 480)
lossless_round_trip_example =
    lossless_round_trip four four 639 479 1 pixels (omega arith) (omega arith) (omega arith)

header_read : static_webp_dimensions (lossless_header four four 639 479 1 pixels) ≡ ok (640, 480)
unfolding static_webp_dimensions chunk_dimensions text_eq
header_read = refl
