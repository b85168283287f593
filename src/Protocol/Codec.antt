-- ===== src/Protocol/Codec.antt =====
-- protocol/codec.py: a frame is the payload's length in four bytes, then the payload. MessagePack
-- itself is a parameter.
pub mod Laws
use tsanet.Prelude.{
  ℕ, zero, suc, ◌+◌, ◌*◌, ◌/◌, ◌%◌, ◌≡◌, Bool, true, false, List, [], ◌∷◌, ◌++◌, length, ltb, ◌==◌,
  if◌then◌else◌,
}
use tsanet.Errors.{Error, Kind, Result, ok, err, raise_error}
use tsanet.Protocol.Value.{Value}
use tsanet.Protocol.Messages.{Message, to_dict, message_from_dict}

-- `msgpack.packb(v, use_bin_type=True)` and `msgpack.unpackb(b, raw=False, strict_map_key=False)`
pub record MsgPack : Type 0 where
  pub packb : Value → Result (List ℕ)
  pub unpackb : List ℕ → Result Value

-- What the code relies on: a value that packs is unpacked from its packing.
pub record IsMsgPack (mp : MsgPack) : Type 0 where
  pub unpackb-packb :
      (v : Value) (payload : List ℕ) → mp.packb v ≡ ok payload → mp.unpackb payload ≡ ok v

abbrev pub header_size : ℕ
header_size = 4

abbrev pub max_frame_size : ℕ
max_frame_size = 64 * 1024 * 1024

-- `n.to_bytes(size, "big")`, for an `n` that fits
unfoldable pub to_bytes : ℕ → ℕ → List ℕ
to_bytes zero n = []
to_bytes (suc size) n = to_bytes size (n / 256) ++ (n % 256) ∷ []

-- `int.from_bytes(b, "big")`, with the number read so far
unfoldable pub from_bytes : ℕ → List ℕ → ℕ
from_bytes n [] = n
from_bytes n (b ∷ rest) = from_bytes (n * 256 + b) rest

frame : List ℕ → Result (List ℕ)
frame payload =
    if ltb max_frame_size (length payload)
    then raise_error Kind.frame_error "frame exceeds the limit"
    else ok (to_bytes header_size (length payload) ++ payload)

unfoldable pub decode_length : List ℕ → Result ℕ
decode_length header =
    if length header == header_size
    then (let size = from_bytes 0 header in
        if ltb max_frame_size size
        then raise_error Kind.frame_error "declared frame size exceeds the limit"
        else ok size)
    else raise_error Kind.frame_error "length header must be 4 bytes"

-- `except (ValueError, msgpack.UnpackException)`
abbrev unpack_failure : Error → Error
unpack_failure e = elim e.kind [
  | Kind.value_error ↦ record { kind = Kind.frame_error; text = e.text }
  | Kind.unpack_exception ↦ record { kind = Kind.frame_error; text = e.text }
  | _ ↦ e
]

module _ (mp : MsgPack) where
  unfoldable pub encode : Message → Result (List ℕ)
  unfolding frame
  encode m = elim (mp.packb (to_dict m)) [ ok payload ↦ frame payload | err e ↦ err e ]

  unfoldable pub decode_payload : List ℕ → Result Message
  decode_payload payload = elim (mp.unpackb payload) [
    | ok obj ↦ message_from_dict obj
    | err e ↦ err (unpack_failure e)
  ]
