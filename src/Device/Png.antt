-- ===== src/Device/Png.antt =====
-- device/png.py: RGBA bytes as a PNG file. zlib is a parameter.
pub mod Laws
use tsanet.Prelude.{
  ℕ, zero, suc, ◌+◌, ◌*◌, ◌%◌, ◌^◌, List, [], ◌∷◌, ◌++◌, length, take, drop, ltb, ◌==◌,
  if◌then◌else◌,
}
use tsanet.Errors.Chain.{◌>>=◌}
use tsanet.Errors.{Kind, Result, ok, err, raise_error}
use tsanet.Protocol.Codec.{to_bytes}

-- `zlib.compress` and `zlib.crc32`
pub record Zlib : Type 0 where
  pub compress : List ℕ → List ℕ
  pub crc32 : List ℕ → ℕ

abbrev pub signature : List ℕ
signature = 0x89 ∷ 0x50 ∷ 0x4E ∷ 0x47 ∷ 0x0D ∷ 0x0A ∷ 0x1A ∷ 0x0A ∷ []

-- `b"IHDR"`, `b"IDAT"` and `b"IEND"`
abbrev pub ihdr_tag : List ℕ
ihdr_tag = 73 ∷ 72 ∷ 68 ∷ 82 ∷ []

abbrev pub idat_tag : List ℕ
idat_tag = 73 ∷ 68 ∷ 65 ∷ 84 ∷ []

abbrev pub iend_tag : List ℕ
iend_tag = 73 ∷ 69 ∷ 78 ∷ 68 ∷ []

-- `struct.pack(">I", n)`, which refuses a number of more than 32 bits
unfoldable pub pack_u32 : ℕ → Result (List ℕ)
pack_u32 n =
    if ltb n (2 ^ 32)
    then ok (to_bytes 4 n)
    else raise_error Kind.value_error "argument out of range"

-- The bytes of the lines, each behind the number of its filter, which is 0.
unfoldable pub scanlines : ℕ → ℕ → List ℕ → List ℕ
scanlines stride zero rgba = []
scanlines stride (suc lines) rgba =
    0 ∷ take stride rgba ++ scanlines stride lines (drop stride rgba)

module _ (zlib : Zlib) where
  -- `_chunk(tag, data)`; the CRC is masked to 32 bits
  unfoldable pub chunk : List ℕ → List ℕ → Result (List ℕ)
  chunk tag content = do
    size ← pack_u32 (length content)
    check ← pack_u32 (zlib.crc32 (tag ++ content) % 2 ^ 32)
    ok (size ++ (tag ++ (content ++ check)))

  unfoldable pub encode_png : List ℕ → ℕ → ℕ → Result (List ℕ)
  unfolding scanlines
  encode_png rgba width height =
      if length rgba == width * height * 4
      then (do
        w ← pack_u32 width
        h ← pack_u32 height
        let ihdr = w ++ (h ++ 8 ∷ 6 ∷ 0 ∷ 0 ∷ 0 ∷ [])
        let idat = zlib.compress (scanlines (width * 4) height rgba)
        head ← chunk ihdr_tag ihdr
        body ← chunk idat_tag idat
        end ← chunk iend_tag []
        ok (signature ++ (head ++ (body ++ end))))
      else raise_error Kind.value_error "wrong number of RGBA bytes"
