-- ===== src/Device/Rgb565/Laws.antt =====
-- Proofs on `decode_rgb565` of device/rgb565.py, against an encoder.
use tsanet.Prelude.{
  ℕ, zero, suc, ◌+◌, ◌*◌, ◌/◌, ◌%◌, ◌^◌, ◌<◌, ◌≡◌, refl, sym, ap, ap₂, ◌∙◌, ◌↔◌, ◌≢◌, List, [], ◌∷◌,
  ◌++◌, length, All, arith,
}
use tsanet.Errors.{Error, Kind, ok, err, raise_error}
use tsanet.Device.Rgb565.{channel, element, decode_pixel, decode_pixels, decode_rgb565}

-- A byte as a channel of `max + 1` levels.
unfoldable pub level : ℕ → ℕ → ℕ
level byte max = (2 * max * byte + 255) / 510

level-channel_five : (c : ℕ) → c < 32 → level (channel c 31) 31 ≡ c
unfolding channel level
level-channel_five c h = ground arith

level-channel_six : (c : ℕ) → c < 64 → level (channel c 63) 63 ≡ c
unfolding channel level
level-channel_six c h = ground arith

channel-le_five : (c : ℕ) → c < 32 → channel c 31 < 256
unfolding channel
channel-le_five c h = ground arith

channel-le_six : (c : ℕ) → c < 64 → channel c 63 < 256
unfolding channel
channel-le_six c h = ground arith

element-lt : (v : ℕ) → v < 256 → element v ≡ ok v
unfolding element
element-lt v h = ground arith

-- The bytes of a pixel's colour, and those of all pixels.
unfoldable pub colour : ℕ → ℕ → List ℕ
unfolding channel
colour high low =
    let pixel = high * 256 + low in
    channel (pixel / 2 ^ 11 % 2 ^ 5) 31
    ∷ channel (pixel / 2 ^ 5 % 2 ^ 6) 63
    ∷ channel (pixel % 2 ^ 5) 31
    ∷ 255
    ∷ []

unfoldable pub colours : ℕ → List ℕ → List ℕ
colours (suc n) (high ∷ low ∷ rest) = colour high low ++ colours n rest
colours _ _ = []

-- Every channel is a byte, so that the colours are written.
decode_pixel-colour : (high low : ℕ) → decode_pixel high low ≡ ok (colour high low)
unfolding decode_pixel colour
decode_pixel-colour high low =
    let pixel : ℕ = high * 256 + low in
    rw
      (
        element-lt _ (channel-le_five (pixel / 2 ^ 11 % 2 ^ 5) (omega arith)),
        element-lt _ (channel-le_six (pixel / 2 ^ 5 % 2 ^ 6) (omega arith)),
        element-lt _ (channel-le_five (pixel % 2 ^ 5) (omega arith)),
      )
      refl

pub decode_pixels-colours : (n : ℕ) (bytes : List ℕ) → decode_pixels n bytes ≡ ok (colours n bytes)
unfolding decode_pixels colours
decode_pixels-colours zero bytes = refl
decode_pixels-colours (suc n) [] = refl
decode_pixels-colours (suc n) (b ∷ []) = refl
decode_pixels-colours (suc n) (high ∷ low ∷ rest) =
    rw (decode_pixel-colour high low, decode_pixels-colours n rest) refl

recombined : (p : ℕ) → p < 65536 → p / 2048 % 32 * 2048 + p / 32 % 64 * 32 + p % 32 ≡ p
recombined p h = omega arith

-- The two bytes of each pixel, read back from its four bytes.
unfoldable pub encode_rgb565 : List ℕ → List ℕ
encode_rgb565 (r ∷ g ∷ b ∷ a ∷ rest) =
    let pixel = level r 31 * 2048 + level g 63 * 32 + level b 31 in
    pixel / 256 ∷ pixel % 256 ∷ encode_rgb565 rest
encode_rgb565 _ = []

encode-pixel :
    (high low : ℕ) (rest : List ℕ)
    → high < 256
    → low < 256
    → encode_rgb565 (colour high low ++ rest) ≡ high ∷ low ∷ encode_rgb565 rest
unfolding encode_rgb565 colour
encode-pixel high low rest h l =
    let pixel : ℕ = high * 256 + low in
    rw
      (
        level-channel_five (pixel / 2 ^ 11 % 2 ^ 5) (omega arith),
        level-channel_six (pixel / 2 ^ 5 % 2 ^ 6) (omega arith),
        level-channel_five (pixel % 2 ^ 5) (omega arith),
      )
      (rw (recombined pixel (omega arith))
        (ap₂ (λ (x y : ℕ). x ∷ y ∷ encode_rgb565 rest) (omega arith) (omega arith)))

encode-colours :
    (n : ℕ) (bytes : List ℕ)
    → length bytes ≡ n * 2
    → All (λ b. b < 256) bytes
    → encode_rgb565 (colours n bytes) ≡ bytes
unfolding colours encode_rgb565
encode-colours zero [] e h = refl
encode-colours zero (b ∷ bs) e h = absurd (omega arith)
encode-colours (suc n) [] e h = absurd (omega arith)
encode-colours (suc n) (b ∷ []) e h = absurd (omega arith)
encode-colours (suc n) (high ∷ low ∷ rest) e (h, (l, all)) =
    encode-pixel high low (colours n rest) h l
    ∙ ap (λ r. high ∷ low ∷ r) (encode-colours n rest (omega arith) all)

length-colours : (n : ℕ) (bytes : List ℕ) → length bytes ≡ n * 2 → length (colours n bytes) ≡ n * 4
unfolding colours colour
length-colours zero bytes e = refl
length-colours (suc n) [] e = absurd (omega arith)
length-colours (suc n) (b ∷ []) e = absurd (omega arith)
length-colours (suc n) (high ∷ low ∷ rest) e = omega (arith, length-colours n rest (omega arith))

bytes-colours : (n : ℕ) (bytes : List ℕ) → All (λ b. b < 256) (colours n bytes)
unfolding colours colour
bytes-colours zero bytes = tt
bytes-colours (suc n) [] = tt
bytes-colours (suc n) (b ∷ []) = tt
bytes-colours (suc n) (high ∷ low ∷ rest) =
    let pixel : ℕ = high * 256 + low in
    (
      channel-le_five (pixel / 2 ^ 11 % 2 ^ 5) (omega arith),
      (
        channel-le_six (pixel / 2 ^ 5 % 2 ^ 6) (omega arith),
        (channel-le_five (pixel % 2 ^ 5) (omega arith), (omega arith, bytes-colours n rest)),
      ),
    )

decode_rgb565-sized :
    (bytes : List ℕ) (width height : ℕ)
    → length bytes ≡ width * height * 2
    → decode_rgb565 bytes width height ≡ ok (colours (width * height) bytes)
unfolding decode_rgb565
decode_rgb565-sized bytes width height size =
    ground (arith, decode_pixels-colours (width * height) bytes)

decode_rgb565-other :
    (bytes : List ℕ) (width height : ℕ)
    → length bytes ≢ width * height * 2
    → decode_rgb565 bytes width height ≡ raise_error Kind.value_error "wrong framebuffer size"
unfolding decode_rgb565
decode_rgb565-other bytes width height wrong = ground arith

decode_rgb565-ok :
    (bytes : List ℕ) (width height : ℕ) {rgba : List ℕ}
    → decode_rgb565 bytes width height ≡ ok rgba
    → (length bytes ≡ width * height * 2) × (rgba ≡ colours (width * height) bytes)
unfolding decode_rgb565
decode_rgb565-ok bytes width height e = ground (arith, decode_pixels-colours (width * height) bytes)

-- A framebuffer of bytes that decodes gives four numbers for each pixel, each of them a byte, from
-- which the framebuffer can be read back: no colour is lost.
pub decode_rgb565_lossless :
    (bytes : List ℕ) (width height : ℕ) {rgba : List ℕ}
    → All (λ b. b < 256) bytes
    → decode_rgb565 bytes width height ≡ ok rgba
    → (length rgba ≡ width * height * 4) × All (λ b. b < 256) rgba × (encode_rgb565 rgba ≡ bytes)
decode_rgb565_lossless bytes width height all e =
    let (size, p) = decode_rgb565-ok bytes width height e in
    (
      ap length p ∙ length-colours (width * height) bytes size,
      rw p (bytes-colours (width * height) bytes),
      ap encode_rgb565 p ∙ encode-colours (width * height) bytes size all,
    )

-- Decoding fails exactly on a framebuffer of another size, with a `ValueError`: no colour that it
-- computes is out of a `bytearray`'s range, by which the loop would raise one too.
pub decode_rgb565_fails :
    (bytes : List ℕ) (width height : ℕ)
    → ((e : Error) × (decode_rgb565 bytes width height ≡ err e) × (e.kind ≡ Kind.value_error))
      ↔ (length bytes ≢ width * height * 2)
decode_rgb565_fails bytes width height = (
  λ (e, failed, kind) size. cc (sym failed ∙ decode_rgb565-sized bytes width height size),
  λ wrong. (_, decode_rgb565-other bytes width height wrong, refl),
)
