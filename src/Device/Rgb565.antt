-- ===== src/Device/Rgb565.antt =====
-- device/rgb565.py: a framebuffer of big-endian RGB565 pixels as RGBA bytes.
pub mod Laws
use tsanet.Prelude.{
  ℕ, zero, suc, ◌+◌, ◌*◌, ◌/◌, ◌%◌, ◌^◌, List, [], ◌∷◌, ◌++◌, length, ltb, ◌==◌, if◌then◌else◌,
}
use tsanet.Errors.Chain.{◌>>=◌}
use tsanet.Errors.{Kind, Result, ok, err, raise_error}

-- `round(a / b)`: to the nearest, and to the even one of two that are as near.
unfoldable pub round_div : ℕ → ℕ → ℕ
round_div a b =
    let q = a / b in
    let twice = 2 * (a % b) in
    if ltb twice b then q else if ltb b twice then q + 1 else if q % 2 == 0 then q else q + 1

-- A channel of 5 or 6 bits as 8 bits.
unfoldable pub channel : ℕ → ℕ → ℕ
unfolding round_div
channel value max = round_div (value * 255) max

-- A number as an element of a `bytearray`.
unfoldable pub element : ℕ → Result ℕ
element v = if ltb v 256 then ok v else raise_error Kind.value_error "byte must be in range(0, 256)"

-- The four bytes of a pixel, whose two bytes make the number `high << 8 | low`.
unfoldable pub decode_pixel : ℕ → ℕ → Result (List ℕ)
unfolding channel element
decode_pixel high low = do
  let pixel = high * 256 + low
  r ← element (channel (pixel / 2 ^ 11 % 2 ^ 5) 31)
  g ← element (channel (pixel / 2 ^ 5 % 2 ^ 6) 63)
  b ← element (channel (pixel % 2 ^ 5) 31)
  ok (r ∷ g ∷ b ∷ 255 ∷ [])

-- The loop over the pixels: pixel `i` stands at bytes `2 i` and `2 i + 1`, and its colour at `4 i`.
pub decode_pixels : ℕ → List ℕ → Result (List ℕ)
decode_pixels (suc n) (high ∷ low ∷ rest) = do
  rgba ← decode_pixel high low
  more ← decode_pixels n rest
  ok (rgba ++ more)
decode_pixels _ _ = ok []

unfoldable pub decode_rgb565 : List ℕ → ℕ → ℕ → Result (List ℕ)
unfolding decode_pixels decode_pixel
decode_rgb565 bytes width height =
    if length bytes == width * height * 2
    then decode_pixels (width * height) bytes
    else raise_error Kind.value_error "wrong framebuffer size"
