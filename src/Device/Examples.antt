-- ===== src/Device/Examples.antt =====
-- The theorems on pictures at concrete ones, and tests of the parsers.
use tsanet.Prelude.{
  zero, suc, ◌≤◌, ℕ, ◌≡◌, ◌≢◌, refl, List, [], ◌∷◌, some, All, ◌<◌, ◌↔◌, ◌*◌, length, arith,
  fstring,
}
use tsanet.Errors.{Error, Kind, ok, err}
use tsanet.Protocol.Codec.{to_bytes}
use tsanet.Device.Model.{ultra}
use tsanet.Device.Parsing.{split_lines, split, strip}
use tsanet.Device.Version.{parse_version}
use tsanet.Device.Legacy.{SerialPort, exchange, read_exact, read_binary, send_binary}
use tsanet.Device.Legacy.Laws.{length-send_binary}
use tsanet.Device.Rgb565.{decode_rgb565}
use tsanet.Device.Rgb565.Laws.{encode_rgb565, decode_rgb565_lossless, decode_rgb565_fails}
use tsanet.Device.Png.{Zlib, pack_u32, chunk, encode_png}
use tsanet.Device.Png.Laws.{read_png, read_png-encode_png}

lines_test : split_lines "1e6 2\r\n\r\n 3\n4" ≡ "1e6 2" ∷ "" ∷ " 3" ∷ "4" ∷ []
unfolding split_lines
lines_test = refl

words_test : split "  ab cde  f " ≡ "ab" ∷ "cde" ∷ "f" ∷ []
unfolding split
words_test = refl

ultra_version_test :
    parse_version "tinySA4_v1.4-143-g864bb27\r\nHW Version:V0.4.5.1 \r\n"
    ≡ ok (record {
      model_string = "tinySA4";
      model = ultra;
      firmware = some "1.4-143-g864bb27";
      hardware = "0.4.5.1";
    })
unfolding parse_version split_lines strip fstring
ultra_version_test = refl

-- A red pixel above a white one.
abbrev framebuffer : List ℕ
framebuffer = 0xF8 ∷ 0x00 ∷ 0xFF ∷ 0xFF ∷ []

abbrev pixels : List ℕ
pixels = 255 ∷ 0 ∷ 0 ∷ 255 ∷ 255 ∷ 255 ∷ 255 ∷ 255 ∷ []

decode_rgb565_lossless_example :
    (length pixels ≡ 1 * 2 * 4) × All (λ b. b < 256) pixels × (encode_rgb565 pixels ≡ framebuffer)
unfolding decode_rgb565
decode_rgb565_lossless_example =
    decode_rgb565_lossless framebuffer 1 2
      (omega arith, (omega arith, (omega arith, (omega arith, tt)))) refl

decode_rgb565_fails_example :
    ((e : Error) × (decode_rgb565 framebuffer 2 2 ≡ err e) × (e.kind ≡ Kind.value_error))
    ↔ (length framebuffer ≢ 2 * 2 * 2)
decode_rgb565_fails_example = decode_rgb565_fails framebuffer 2 2

-- A zlib that stores.
abbrev stored : Zlib
stored = record { compress = λ raw. raw; crc32 = length }

abbrev file : List ℕ
file =
    137 ∷ 80 ∷ 78 ∷ 71 ∷ 13 ∷ 10 ∷ 26 ∷ 10 ∷ 0 ∷ 0 ∷ 0 ∷ 13 ∷ 73 ∷ 72 ∷ 68 ∷ 82 ∷ 0 ∷ 0 ∷ 0 ∷ 1 ∷ 0
    ∷ 0 ∷ 0 ∷ 2 ∷ 8 ∷ 6 ∷ 0 ∷ 0 ∷ 0 ∷ 0 ∷ 0 ∷ 0 ∷ 17 ∷ 0 ∷ 0 ∷ 0 ∷ 10 ∷ 73 ∷ 68 ∷ 65 ∷ 84 ∷ 0 ∷ 255
    ∷ 0 ∷ 0 ∷ 255 ∷ 0 ∷ 255 ∷ 255 ∷ 255 ∷ 255 ∷ 0 ∷ 0 ∷ 0 ∷ 14 ∷ 0 ∷ 0 ∷ 0 ∷ 0 ∷ 73 ∷ 69 ∷ 78 ∷ 68
    ∷ 0 ∷ 0 ∷ 0 ∷ 4 ∷ []

read_png-encode_png_example : read_png stored (λ raw. raw) file ≡ some (1, 2, pixels)
unfolding encode_png pack_u32 chunk to_bytes
read_png-encode_png_example =
    read_png-encode_png stored (λ raw. raw) (λ raw. refl) pixels 1 2 {png = file} refl

-- A port that delivers its bytes one at a time.
one_byte : ℕ → List ℕ → List ℕ × List ℕ
one_byte zero p = ([], p)
one_byte (suc n) [] = ([], [])
one_byte (suc n) (b ∷ rest) = (b ∷ [], rest)

abbrev slow_port : SerialPort (List ℕ)
slow_port = record {
  write = λ bytes p. p;
  read = one_byte;
  read_until = λ mark p. ([], p);
  reset_input_buffer = λ p. p;
}

one_byte-short : (n : ℕ) (p : List ℕ) → length (one_byte n p).0 ≤ n
unfolding one_byte
one_byte-short zero p = omega arith
one_byte-short (suc n) [] = omega arith
one_byte-short (suc n) (b ∷ rest) = omega arith

abbrev two_bytes : List ℕ
two_bytes = 7 ∷ 8 ∷ []

length-send_binary_example : length two_bytes ≡ 2
unfolding send_binary exchange read_binary read_exact one_byte
length-send_binary_example =
    length-send_binary slow_port one_byte-short 3 2 (99 ∷ []) (7 ∷ 8 ∷ 99 ∷ 104 ∷ 62 ∷ 32 ∷ [])
      two_bytes [] refl
