-- ===== src/Proto.antt =====
-- internal/proto/proto.go: frames on the wire. A connection that frames are read from is a
-- `Stream`: the bytes that will still arrive, and the error that `Read` reports after them.
pub mod RoundTrip
pub mod Errors
pub mod Sound
pub mod Init
use ngp_mtls.Prelude.{
  ℕ, ◌+◌, ◌*◌, ◌/◌, ◌%◌, ◌^◌, ◌<◌, Option, none, some, [], ◌∷◌, Bytes, IsBytes, length, take, drop,
  replicate, copy_at, ltb, leb, if◌then◌else◌, Error, eof, unexpected_eof, Result, ok, err,
}

-- `FrameType` is a byte; any of its 256 values can arrive.
abbrev pub FrameType : Type 0
FrameType = ℕ

abbrev pub new_conn : FrameType
new_conn = 0x01

abbrev pub data_type : FrameType
data_type = 0x02

abbrev pub close : FrameType
close = 0x03

abbrev pub init : FrameType
init = 0x04

pub record Frame : Type 0 where
  pub frame_type : FrameType
  pub conn_id : ℕ
  pub payload : Bytes

-- The Go types of the fields: a byte, a `uint32`, a byte slice.
pub record IsFrame (f : Frame) : Type 0 where
  pub type_fits : f.frame_type < 256
  pub id_fits : f.conn_id < 2 ^ 32
  pub payload_bytes : IsBytes f.payload

-- The frames that both ends make: NEW_CONN and CLOSE_CONN frames are bare.
abbrev pub bare_frame : FrameType → ℕ → Frame
bare_frame t conn_id = record { frame_type = t; conn_id = conn_id; payload = [] }

abbrev pub data_frame : ℕ → Bytes → Frame
data_frame conn_id b = record { frame_type = data_type; conn_id = conn_id; payload = b }

-- `binary.BigEndian.PutUint32` and `Uint32` on four bytes.
unfoldable pub put_uint32 : ℕ → Bytes
put_uint32 v = (v / 2 ^ 24 % 256) ∷ (v / 2 ^ 16 % 256) ∷ (v / 2 ^ 8 % 256) ∷ (v % 256) ∷ []

unfoldable pub uint32 : Bytes → ℕ
uint32 (a ∷ b ∷ c ∷ d ∷ _) = a * 2 ^ 24 + b * 2 ^ 16 + c * 2 ^ 8 + d
uint32 _ = 0

-- `EncodeFrame`: a buffer of the total length is made and written piece by piece at its offsets.
pub encode_frame : Option Frame → Result Bytes
encode_frame none = err unexpected_eof
encode_frame (some f) =
    let payload_len = length f.payload in
    let buf = replicate (1 + 4 + 4 + payload_len) 0 in
    let typed = copy_at 0 (f.frame_type ∷ []) buf in
    let addressed = copy_at 1 (put_uint32 f.conn_id) typed in
    let sized = copy_at (1 + 4) (put_uint32 (payload_len % 2 ^ 32)) addressed in
    ok (if ltb 0 payload_len then copy_at (1 + 4 + 4) f.payload sized else sized)

pub record Stream : Type 0 where
  pub bytes : Bytes
  pub ending : Error

-- An end of file behind a part of what was asked for is unexpected.
abbrev pub mid_read : Error → Error
mid_read eof = unexpected_eof
mid_read e = e

-- `io.ReadFull` into a buffer of `n` bytes, n > 0: an end of file behind some of the bytes, but
-- not all, is unexpected; every other error is passed on.
unfoldable pub read_full : ℕ → Stream → Result (Bytes × Stream)
read_full n r =
    if leb n (length r.bytes)
    then ok (take n r.bytes, record r { bytes = drop n r.bytes })
    else if ltb 0 (length r.bytes)
    then err (mid_read r.ending)
    else err r.ending

infixl 5 ◌>>=◌
abbrev pub ◌>>=◌ {ℓ κ} : {A : Type ℓ} {B : Type κ} → Result A → (A → Result B) → Result B
ok a >>= f = f a
err e >>= f = err e

-- The payload behind a header: `ReadFull` is called for a positive length only.
read_payload : ℕ → Stream → Result (Bytes × Stream)
read_payload payload_len r = if ltb 0 payload_len then read_full payload_len r else ok ([], r)

-- `header[0]`.
first : Bytes → ℕ
first [] = 0
first (b ∷ _) = b

-- The frame that the nine bytes of a header announce, with its payload.
pub header_frame : Bytes → Bytes → Frame
unfolding first
header_frame header body = record {
  frame_type = first header;
  conn_id = uint32 (take 4 (drop 1 header));
  payload = body;
}

-- `DecodeFrame`: the frame, and what is left of the stream.
pub decode_frame : Stream → Result (Frame × Stream)
unfolding read_payload header_frame
decode_frame r = do
  (header, r') ← read_full 9 r
  (body, rest) ← read_payload (uint32 (drop 5 header)) r'
  ok (header_frame header body, rest)
