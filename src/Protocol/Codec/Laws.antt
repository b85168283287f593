-- ===== src/Protocol/Codec/Laws.antt =====
-- Proofs on the frames of protocol/codec.py.
use tsanet.Prelude.{
  ℕ, ◌+◌, ◌*◌, ◌≤◌, ◌<◌, ◌^◌, ◌≡◌, refl, sym, ap, ◌∙◌, List, [], ◌∷◌, ◌++◌, length, arith, ◌↔◌, inl,
  inr, ltb, false,
}
use tsanet.Errors.{Error, Kind, Result-cases, ok, err}
use tsanet.Protocol.Messages.{Message, HasArgs, to_dict}
use tsanet.Protocol.Messages.RoundTrip.{message_from_dict-to_dict}
use tsanet.Protocol.Codec.{
  MsgPack, IsMsgPack, header_size, max_frame_size, to_bytes, from_bytes, frame, decode_length,
  encode, decode_payload,
}

pub from_bytes-to_bytes : (n : ℕ) → n < 2 ^ 32 → from_bytes 0 (to_bytes 4 n) ≡ n
unfolding to_bytes from_bytes
from_bytes-to_bytes n h = omega arith

pub length-to_bytes : (n : ℕ) → length (to_bytes 4 n) ≡ 4
unfolding to_bytes
length-to_bytes n = refl

-- A frame has a header of four bytes that holds the length of the payload behind it.
pub record IsFrame (mp : MsgPack) (m : Message) (bytes : List ℕ) : Type 0 where
  pub header : List ℕ
  pub payload : List ℕ
  pub bytes-eq : bytes ≡ header ++ payload
  pub header_four : length header ≡ header_size
  pub declared : decode_length header ≡ ok (length payload)
  pub packed : mp.packb (to_dict m) ≡ ok payload

decode_length-to_bytes :
    (n : ℕ) → ltb max_frame_size n ≡ false → decode_length (to_bytes 4 n) ≡ ok n
unfolding decode_length
decode_length-to_bytes n h = ground (arith, length-to_bytes n, from_bytes-to_bytes n)

frame_lem :
    (payload : List ℕ) {bytes : List ℕ}
    → frame payload ≡ ok bytes
    → (ltb max_frame_size (length payload) ≡ false)
      × (bytes ≡ to_bytes 4 (length payload) ++ payload)
unfolding frame
frame_lem payload h = ground arith

encode_packed :
    (mp : MsgPack) (m : Message) {bytes : List ℕ}
    → encode mp m ≡ ok bytes
    → (payload : List ℕ) × (mp.packb (to_dict m) ≡ ok payload) × (frame payload ≡ ok bytes)
unfolding encode
encode_packed mp m h = elim (Result-cases (mp.packb (to_dict m))) [
  | inl (e, p) ↦ absurd (cc (rw (p, encode) at h))
  | inr (payload, p) ↦ (payload, p, rw (p, encode) at h)
]

-- `encode` writes one frame of the message, or raises.
pub encode-IsFrame :
    (mp : MsgPack) (m : Message) {bytes : List ℕ} → encode mp m ≡ ok bytes → IsFrame mp m bytes
encode-IsFrame mp m h =
    let (payload, packed, framed) = encode_packed mp m h in
    let (fits, e) = frame_lem payload framed in
    record {
      header = to_bytes 4 (length payload);
      payload = payload;
      bytes-eq = e;
      header_four = length-to_bytes (length payload);
      declared = decode_length-to_bytes (length payload) fits;
      packed = packed;
    }

-- The payload of a frame decodes to the message that was encoded.
pub decode_payload-packb :
    (mp : MsgPack)
    → IsMsgPack mp
    → (m : Message) (payload : List ℕ) → HasArgs m
    → mp.packb (to_dict m) ≡ ok payload
    → decode_payload mp payload ≡ ok m
unfolding decode_payload
decode_payload-packb mp law m payload args packed =
    rw (law.unpackb-packb (to_dict m) payload packed, decode_payload)
      (message_from_dict-to_dict m args)

-- The number of four bytes, the highest first.
abbrev pub number : ℕ → ℕ → ℕ → ℕ → ℕ
number a b c d = a * 2 ^ 24 + b * 2 ^ 16 + c * 2 ^ 8 + d

-- The header is the four bytes of the number.
abbrev pub Declares : List ℕ → ℕ → Type 0
Declares header n =
    (a : ℕ) × (b : ℕ) × (c : ℕ) × (d : ℕ) × (header ≡ a ∷ b ∷ c ∷ d ∷ []) × (n ≡ number a b c d)

decode_length-Declares :
    (header : List ℕ) (n : ℕ) → decode_length header ≡ ok n → Declares header n × (n ≤ 2 ^ 26)
unfolding decode_length from_bytes
decode_length-Declares [] n h = absurd (cc h)
decode_length-Declares (a ∷ []) n h = absurd (cc h)
decode_length-Declares (a ∷ b ∷ []) n h = absurd (cc h)
decode_length-Declares (a ∷ b ∷ c ∷ []) n h = absurd (cc h)
decode_length-Declares (a ∷ b ∷ c ∷ d ∷ []) n h = ((a, b, c, d, refl, ground arith), ground arith)
decode_length-Declares (a ∷ b ∷ c ∷ d ∷ e ∷ rest) n h = absurd (ground arith)

decode_length-number :
    (a b c d : ℕ)
    → number a b c d ≤ 2 ^ 26
    → decode_length (a ∷ b ∷ c ∷ d ∷ []) ≡ ok (number a b c d)
unfolding decode_length from_bytes
decode_length-number a b c d fits = ground arith

-- A header is read as `n` exactly when it is four bytes that are the digits of `n` in base 256, the
-- highest first, and `n` is at most 64 MiB.
pub decode_length-ok_iff :
    (header : List ℕ) (n : ℕ) → (decode_length header ≡ ok n) ↔ (Declares header n × (n ≤ 2 ^ 26))
decode_length-ok_iff header n = (
  decode_length-Declares header n,
  λ ((a, b, c, d, e, digits), fits).
      ap decode_length e
      ∙ decode_length-number a b c d (omega (arith, digits, fits))
      ∙ ap ok (sym digits),
)

-- Any other header is a `FrameError`.
pub decode_length-frame_error :
    (header : List ℕ) {e : Error} → decode_length header ≡ err e → e.kind ≡ Kind.frame_error
unfolding decode_length
decode_length-frame_error header h = ground arith
