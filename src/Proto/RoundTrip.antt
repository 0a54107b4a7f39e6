-- ===== src/Proto/RoundTrip.antt =====
-- `EncodeFrame` against the documented layout of a frame, and the round trips with `DecodeFrame`.
use ngp_mtls.Prelude.{
  ℕ, suc, ◌+◌, ◌%◌, ◌^◌, ◌<◌, ◌≡◌, refl, sym, ap, ◌∙◌, inl, inr, true, false, List, some, [], ◌∷◌,
  ◌++◌, append_assoc, arith, Bytes, IsBytes, length, length-append, length-replicate, drop,
  replicate, take_append, drop_append, copy, copy_all, ltb, leb, lt→ltb, Bool-cases, Error, ok,
}
use ngp_mtls.Proto.{
  bare_frame, Frame, data_frame, IsFrame, Stream, put_uint32, uint32, encode_frame, read_full,
  read_payload, header_frame, decode_frame, ◌>>=◌,
}

-- The layout that the README and the comment of `EncodeFrame` give:
-- type (1 byte), connection (4 bytes), length (4 bytes), payload.
abbrev pub header : Frame → Bytes
header f = f.frame_type ∷ put_uint32 f.conn_id ++ put_uint32 (length f.payload % 2 ^ 32)

abbrev pub layout : Frame → Bytes
layout f = header f ++ f.payload

pub uint32-put_uint32 : (v : ℕ) → v < 2 ^ 32 → uint32 (put_uint32 v) ≡ v
unfolding put_uint32 uint32
uint32-put_uint32 v h = omega arith

pub put_uint32-IsBytes : (v : ℕ) → IsBytes (put_uint32 v)
unfolding put_uint32
put_uint32-IsBytes v = omega arith

copy_payload : (p : Bytes) → copy p (replicate (length p) 0) ≡ p
copy_payload p = copy_all p _ (sym (length-replicate (length p) 0))

no_payload : (p : Bytes) → ltb 0 (length p) ≡ false → replicate (length p) 0 ≡ p
no_payload [] h = refl
no_payload (b ∷ p) h = cc (lt→ltb 0 (suc (length p)) (omega arith))

nine_add : (n : ℕ) → 9 + n ≡ suc (suc (suc (suc (suc (suc (suc (suc (suc n))))))))
nine_add n = omega arith

-- The buffer that `EncodeFrame` fills at its offsets holds the layout.
pub encode_frame-layout : (f : Frame) → encode_frame (some f) ≡ ok (layout f)
unfolding encode_frame put_uint32
encode_frame-layout f =
    rw (nine_add (length f.payload)) (elim (Bool-cases (ltb 0 (length f.payload))) [
      | inl some_bytes ↦ rw (some_bytes, copy_payload f.payload)
      | inr none_at_all ↦ rw (none_at_all, no_payload f.payload none_at_all)
    ])

abbrev pub stream : Bytes → Error → Stream
stream b e = record { bytes = b; ending = e }

-- `ReadFull` takes what is asked for when it is there.
pub read_full-append :
    (n : ℕ) (b rest : Bytes) (e : Error)
    → length b ≡ n
    → read_full n (stream (b ++ rest) e) ≡ ok (b, stream rest e)
unfolding read_full
read_full-append n b rest e h = rw (fits, take_append n b rest h, drop_append n b rest h)
  where
    fits : leb n (length (b ++ rest)) ≡ true
    fits = ground (arith, length-append b rest)

read_payload-append :
    (b rest : Bytes) (e : Error)
    → read_payload (length b) (stream (b ++ rest) e) ≡ ok (b, stream rest e)
unfolding read_payload
read_payload-append [] rest e = refl
read_payload-append (x ∷ b) rest e =
    rw (lt→ltb 0 (suc (length b)) (omega arith)) (read_full-append _ (x ∷ b) rest e refl)

pub length-header : (f : Frame) → length (header f) ≡ 9
unfolding put_uint32
length-header f = refl

-- The length field of a header.
pub uint32-header :
    (f : Frame) → length f.payload < 2 ^ 32 → uint32 (drop 5 (header f)) ≡ length f.payload
unfolding put_uint32 uint32
uint32-header f h = omega arith

header_frame-header : (f : Frame) → IsFrame f → header_frame (header f) f.payload ≡ f
unfolding header_frame put_uint32 uint32
header_frame-header f v = ground (arith, v.id_fits)

-- A header of nine bytes, then as many bytes as it announces.
pub decode_frame-append :
    (h b rest : Bytes) (e : Error)
    → length h ≡ 9
    → uint32 (drop 5 h) ≡ length b
    → decode_frame (stream (h ++ (b ++ rest)) e) ≡ ok (header_frame h b, stream rest e)
unfolding decode_frame
decode_frame-append h b rest e nine announced =
    rw (read_full-append 9 h (b ++ rest) e nine, announced) (rw (read_payload-append b rest e))

pub decode_frame-layout :
    (f : Frame) (rest : Bytes) (e : Error)
    → IsFrame f
    → length f.payload < 2 ^ 32
    → decode_frame (stream (layout f ++ rest) e) ≡ ok (f, stream rest e)
decode_frame-layout f rest e v h = rw (append_assoc (header f) f.payload rest) (
    decode_frame-append (header f) f.payload rest e (length-header f) (uint32-header f h)
    ∙ ap (λ g. ok (g, stream rest e)) (header_frame-header f v))

-- A frame whose payload is shorter than 2^32 bytes is read back from its encoding, whatever bytes
-- follow it and however the stream ends, and exactly those bytes are left.
pub decode_frame-encode_frame :
    (f : Frame) (rest : Bytes) (e : Error)
    → IsFrame f
    → length f.payload < 2 ^ 32
    → (do b ← encode_frame (some f); decode_frame (stream (b ++ rest) e)) ≡ ok (f, stream rest e)
decode_frame-encode_frame f rest e v h =
    rw (encode_frame-layout f) (decode_frame-layout f rest e v h)

-- The bytes of a list of frames.
abbrev pub wire : List Frame → Bytes
wire [] = []
wire (f ∷ fs) = layout f ++ wire fs

pub wire-append : (fs gs : List Frame) → wire (fs ++ gs) ≡ wire fs ++ wire gs
wire-append [] gs = refl
wire-append (f ∷ fs) gs =
    ap (λ b. layout f ++ b) (wire-append fs gs) ∙ sym (append_assoc (layout f) (wire fs) (wire gs))

-- A frame that its length field can describe.
abbrev pub IsSendable : Frame → Type 0
IsSendable f = IsFrame f × (length f.payload < 2 ^ 32)

pub bare_frame-IsSendable : (t k : ℕ) → t < 256 → k < 2 ^ 32 → IsSendable (bare_frame t k)
bare_frame-IsSendable t k small fits =
    (record { type_fits = small; id_fits = fits; payload_bytes = tt }, omega arith)

-- The DATA frames for what was read: one for each read that returned bytes.
abbrev pub data_frames : ℕ → List Bytes → List Frame
data_frames k [] = []
data_frames k ([] ∷ bs) = data_frames k bs
data_frames k ((x ∷ b) ∷ bs) = data_frame k (x ∷ b) ∷ data_frames k bs
