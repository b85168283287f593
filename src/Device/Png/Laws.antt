-- ===== src/Device/Png/Laws.antt =====
-- A reader of PNG files, and proofs on `encode_png` of device/png.py.
use tsanet.Prelude.{
  ℕ, zero, suc, ◌*◌, ◌%◌, ◌^◌, ◌<◌, ◌≡◌, refl, ap, ◌∙◌, Option, none, some, List, [], ◌∷◌, ◌++◌,
  append_assoc, append-nil, length, length-take, length-drop, take, drop, take-append, drop-append,
  take-append-drop, bytes_eq, arith, ◌==◌, ==_iff, if◌then◌else◌,
}
use tsanet.Errors.Chain.{returned}
use tsanet.Errors.{ok}
use tsanet.Protocol.Codec.{to_bytes, from_bytes}
use tsanet.Protocol.Codec.Laws.{from_bytes-to_bytes, length-to_bytes}
use tsanet.Device.Png.{
  Zlib, signature, ihdr_tag, idat_tag, iend_tag, pack_u32, scanlines, chunk, encode_png,
}

-- The first `n` bytes, and the rest.
unfoldable pub cut : ℕ → List ℕ → List ℕ × List ℕ
cut n bytes = (take n bytes, drop n bytes)

cut-append : (n : ℕ) (xs ys : List ℕ) → length xs ≡ n → cut n (xs ++ ys) ≡ (xs, ys)
unfolding cut
cut-append n xs ys e = rw (← e) (λ i. (take-append xs ys i, drop-append xs ys i))

-- The picture behind the filter bytes of its lines.
unfoldable pub unfilter : ℕ → ℕ → List ℕ → List ℕ
unfilter stride zero raw = []
unfilter stride (suc lines) raw =
    let (line, rest) = cut stride (drop 1 raw) in line ++ unfilter stride lines rest

module _ (zlib : Zlib) where
  -- A chunk at the front of a file: its tag and content, if the CRC is theirs, and what follows.
  unfoldable pub read_chunk : List ℕ → Option (List ℕ × List ℕ × List ℕ)
  read_chunk bytes =
      let (size, b₁) = cut 4 bytes in
      let (tag, b₂) = cut 4 b₁ in
      let (content, b₃) = cut (from_bytes 0 size) b₂ in
      let (check, rest) = cut 4 b₃ in
      if from_bytes 0 check == zlib.crc32 (tag ++ content) % 2 ^ 32
      then some (tag, content, rest)
      else none

  chunk_lem :
      (tag content : List ℕ) {bytes : List ℕ}
      → chunk zlib tag content ≡ ok bytes
      → (length content < 2 ^ 32)
        × (bytes
            ≡ to_bytes 4 (length content)
              ++ (tag ++ (content ++ to_bytes 4 (zlib.crc32 (tag ++ content) % 2 ^ 32))))
  unfolding chunk pack_u32
  chunk_lem tag content h = ground arith

  read_chunk-chunk :
      (tag content rest : List ℕ) {bytes : List ℕ}
      → length tag ≡ 4
      → chunk zlib tag content ≡ ok bytes
      → read_chunk (bytes ++ rest) ≡ some (tag, content, rest)
  unfolding read_chunk
  read_chunk-chunk tag content rest four h =
      let (fits, e) = chunk_lem tag content h in
      let check : List ℕ = to_bytes 4 (zlib.crc32 (tag ++ content) % 2 ^ 32) in
      rw
        (
          e,
          append_assoc,
          cut-append 4 (to_bytes 4 (length content)) ((tag ++ (content ++ check)) ++ rest)
              (length-to_bytes (length content)),
          append_assoc,
          cut-append 4 tag ((content ++ check) ++ rest) four,
          from_bytes-to_bytes (length content) fits,
          append_assoc,
          cut-append (length content) content (check ++ rest) refl,
          cut-append 4 check rest (length-to_bytes (zlib.crc32 (tag ++ content) % 2 ^ 32)),
          from_bytes-to_bytes (zlib.crc32 (tag ++ content) % 2 ^ 32) (omega arith),
        )
        (ground arith)

unfilter-scanlines :
    (stride lines : ℕ) (rgba : List ℕ)
    → length rgba ≡ lines * stride
    → unfilter stride lines (scanlines stride lines rgba) ≡ rgba
unfolding unfilter scanlines
unfilter-scanlines stride zero [] e = refl
unfilter-scanlines stride zero (b ∷ bs) e = absurd (omega arith)
unfilter-scanlines stride (suc lines) rgba e =
    rw
      (cut-append stride (take stride rgba) (scanlines stride lines (drop stride rgba))
        (omega (arith, length-take stride rgba)))
      (ap (λ l. take stride rgba ++ l)
          (unfilter-scanlines stride lines (drop stride rgba)
            (omega (arith, length-drop stride rgba)))
        ∙ take-append-drop stride rgba)

-- The size in an image header of 8-bit RGBA, and the lines of the picture.
picture : (List ℕ → List ℕ) → List ℕ → List ℕ → Option (ℕ × ℕ × List ℕ)
picture decompress header idat =
    let (width, h₁) = cut 4 header in
    let (height, form) = cut 4 h₁ in
    let w = from_bytes 0 width in
    let h = from_bytes 0 height in
    if bytes_eq form (8 ∷ 6 ∷ 0 ∷ 0 ∷ 0 ∷ [])
    then some (w, h, unfilter (w * 4) h (decompress idat))
    else none

-- The three chunks that the file has behind its signature.
abbrev bind : {A B : Type 0} → Option A → (A → Option B) → Option B
bind none f = none
bind (some a) f = f a

abbrev expect : List ℕ → List ℕ × List ℕ × List ℕ → Option (List ℕ × List ℕ)
expect wanted (tag, content, rest) = if bytes_eq tag wanted then some (content, rest) else none

-- A reader of PNG files of three chunks.
unfoldable pub read_png : Zlib → (List ℕ → List ℕ) → List ℕ → Option (ℕ × ℕ × List ℕ)
unfolding picture
read_png zlib decompress bytes =
    let (start, b) = cut 8 bytes in
    let chunks = bind (bind (read_chunk zlib b) (expect ihdr_tag)) (λ (ihdr : List ℕ × List ℕ).
      bind (bind (read_chunk zlib ihdr.1) (expect idat_tag)) (λ (idat : List ℕ × List ℕ).
        bind (bind (read_chunk zlib idat.1) (expect iend_tag))
          (λ (iend : List ℕ × List ℕ). picture decompress ihdr.0 idat.0))) in
    if bytes_eq start signature then chunks else none

picture_lem :
    (decompress : List ℕ → List ℕ) (width height : ℕ) (idat : List ℕ)
    → width < 2 ^ 32
    → height < 2 ^ 32
    → picture decompress (to_bytes 4 width ++ (to_bytes 4 height ++ 8 ∷ 6 ∷ 0 ∷ 0 ∷ 0 ∷ [])) idat
      ≡ some (width, height, unfilter (width * 4) height (decompress idat))
unfolding picture
picture_lem decompress width height idat w h = rw (
  cut-append 4 (to_bytes 4 width) (to_bytes 4 height ++ 8 ∷ 6 ∷ 0 ∷ 0 ∷ 0 ∷ [])
      (length-to_bytes width),
  cut-append 4 (to_bytes 4 height) (8 ∷ 6 ∷ 0 ∷ 0 ∷ 0 ∷ []) (length-to_bytes height),
  from_bytes-to_bytes width w,
  from_bytes-to_bytes height h,
)

-- What `encode_png` has computed when it returns.
record Encoded (zlib : Zlib) (rgba : List ℕ) (width height : ℕ) (png : List ℕ) : Type 0 where
  size : length rgba ≡ width * height * 4
  wide : width < 2 ^ 32
  high : height < 2 ^ 32
  head : List ℕ
  body : List ℕ
  end : List ℕ
  head-eq :
      chunk zlib ihdr_tag (to_bytes 4 width ++ (to_bytes 4 height ++ 8 ∷ 6 ∷ 0 ∷ 0 ∷ 0 ∷ []))
      ≡ ok head
  body-eq : chunk zlib idat_tag (zlib.compress (scanlines (width * 4) height rgba)) ≡ ok body
  end-eq : chunk zlib iend_tag [] ≡ ok end
  png-eq : png ≡ signature ++ (head ++ (body ++ end))

pack_u32_lem : (n : ℕ) {b : List ℕ} → pack_u32 n ≡ ok b → (n < 2 ^ 32) × (b ≡ to_bytes 4 n)
unfolding pack_u32
pack_u32_lem n h = ground arith

encode_png_sized :
    (zlib : Zlib) (rgba : List ℕ) (width height : ℕ) {png : List ℕ}
    → encode_png zlib rgba width height ≡ ok png
    → length rgba ≡ width * height * 4
unfolding encode_png
encode_png_sized zlib rgba width height h = ground arith

encode_png-Encoded :
    (zlib : Zlib) (rgba : List ℕ) (width height : ℕ) {png : List ℕ}
    → encode_png zlib rgba width height ≡ ok png
    → Encoded zlib rgba width height png
unfolding encode_png
encode_png-Encoded zlib rgba width height h =
    let size = encode_png_sized zlib rgba width height h in
    let h₁ = rw ((==_iff _ _).1 size) at h in
    let (w, w_eq, h₂) = returned (pack_u32 width) _ h₁ in
    let (l, l_eq, h₃) = returned (pack_u32 height) _ h₂ in
    let (head, head_eq, h₄) = returned (chunk zlib ihdr_tag _) _ h₃ in
    let (body, body_eq, h₅) = returned (chunk zlib idat_tag _) _ h₄ in
    let (end, end_eq, h₆) = returned (chunk zlib iend_tag []) _ h₅ in
    let (wide, w_bytes) = pack_u32_lem width w_eq in
    let (high, l_bytes) = pack_u32_lem height l_eq in
    record {
      size = size;
      wide = wide;
      high = high;
      head = head;
      body = body;
      end = end;
      head-eq = rw (← w_bytes, ← l_bytes) head_eq;
      body-eq = body_eq;
      end-eq = end_eq;
      png-eq = cc h₆;
    }

-- The reader finds in an encoded file its width, its height and its pixels. zlib is taken to
-- decompress what it compressed.
pub read_png-encode_png :
    (zlib : Zlib) (decompress : List ℕ → List ℕ)
    → ((raw : List ℕ) → decompress (zlib.compress raw) ≡ raw)
    → (rgba : List ℕ) (width height : ℕ) {png : List ℕ} → encode_png zlib rgba width height ≡ ok png
    → read_png zlib decompress png ≡ some (width, height, rgba)
unfolding read_png
read_png-encode_png zlib decompress law rgba width height h =
    let e = encode_png-Encoded zlib rgba width height h in
    rw (
      e.png-eq,
      cut-append 8 signature (e.head ++ (e.body ++ e.end)) refl,
      read_chunk-chunk zlib ihdr_tag
          (to_bytes 4 width ++ (to_bytes 4 height ++ 8 ∷ 6 ∷ 0 ∷ 0 ∷ 0 ∷ [])) (e.body ++ e.end) refl
          e.head-eq,
      read_chunk-chunk zlib idat_tag (zlib.compress (scanlines (width * 4) height rgba)) e.end refl
          e.body-eq,
      ← append-nil e.end,
      read_chunk-chunk zlib iend_tag [] [] refl e.end-eq,
      picture_lem decompress width height (zlib.compress (scanlines (width * 4) height rgba)) e.wide
          e.high,
      law,
      unfilter-scanlines (width * 4) height rgba (omega (arith, e.size)),
    )
