-- ===== src/Proto/Sound.antt =====
-- The bytes that `DecodeFrame` accepts are those that `EncodeFrame` writes.
use ngp_mtls.Prelude.{
  ℕ, ◌+◌, ◌^◌, ◌≤◌, ◌<◌, ◌≡◌, refl, sym, ap, ◌∙◌, inl, inr, some, [], ◌∷◌, ◌++◌, append_assoc,
  arith, Bytes, IsBytes, All-take, All-drop, length, length-append, length-take, take, drop,
  take-append-drop, ltb, Bool-cases, if◌then◌else◌, Result, ok, err,
}
use ngp_mtls.Proto.{
  Frame, IsFrame, Stream, put_uint32, uint32, encode_frame, read_full, read_payload, first,
  header_frame, decode_frame, ◌>>=◌,
}
use ngp_mtls.Proto.RoundTrip.{header, layout, encode_frame-layout}

-- What a successful read took off the stream.
record Took (n : ℕ) (s : Stream) (b : Bytes) (r : Stream) : Type 0 where
  split : s.bytes ≡ b ++ r.bytes
  count : length b ≡ n
  ending : r.ending ≡ s.ending
  read_bytes : IsBytes s.bytes → IsBytes b × IsBytes r.bytes

read_full-Took :
    (n : ℕ) (s : Stream) {b : Bytes} {r : Stream} → read_full n s ≡ ok (b, r) → Took n s b r
unfolding read_full
read_full-Took n s {b} {r} h = record {
  split = ground (arith, take-append-drop n s.bytes);
  count = ground (arith, length-take n s.bytes);
  ending = ground arith;
  read_bytes =
      λ v. ground (arith, All-take (λ x. x < 256) n s.bytes v, All-drop (λ x. x < 256) n s.bytes v);
}

read_payload-Took :
    (n : ℕ) (s : Stream) {b : Bytes} {r : Stream} → read_payload n s ≡ ok (b, r) → Took n s b r
unfolding read_payload
read_payload-Took n s {b} {r} h = elim (Bool-cases (ltb 0 n)) [
  | inl pos ↦ read_full-Took n s (rw (pos, if◌then◌else◌) at h)
  | inr empty ↦ record {
    split = ground arith;
    count = ground arith;
    ending = ground arith;
    read_bytes = λ v. ground arith;
  }
]

-- Nine bytes are the header of the frame that they announce.
header_lem :
    (h b : Bytes)
    → length h ≡ 9
    → uint32 (drop 5 h) ≡ length b
    → IsBytes h
    → header (header_frame h b) ≡ h
unfolding header_frame put_uint32 uint32
header_lem (t ∷ a₃ ∷ a₂ ∷ a₁ ∷ a₀ ∷ b₃ ∷ b₂ ∷ b₁ ∷ b₀ ∷ []) b n e v = ground arith
header_lem _ b n e v = absurd (omega arith)

>>=-eq-ok {ℓ κ} :
    {A : Type ℓ} {B : Type κ} (m : Result A) (k : A → Result B) {b : B}
    → (m >>= k) ≡ ok b
    → (a : A) × (m ≡ ok a) × (k a ≡ ok b)
>>=-eq-ok (ok a) k h = (a, refl, h)
>>=-eq-ok (err e) k h = cc

-- The two reads behind a decoded frame.
record Parts (s : Stream) (f : Frame) (r : Stream) : Type 0 where
  head : Bytes
  after : Stream
  took_head : Took 9 s head after
  took_payload : Took (uint32 (drop 5 head)) after f.payload r
  made : f ≡ header_frame head f.payload

decode_frame-Parts :
    (s : Stream) {f : Frame} {r : Stream} → decode_frame s ≡ ok (f, r) → Parts s f r
unfolding decode_frame
decode_frame-Parts s {f} {r} h =
    let ((head, after), read_head, rest) = >>=-eq-ok (read_full 9 s) _ h in
    let ((b, r'), read_body, made) = >>=-eq-ok (read_payload (uint32 (drop 5 head)) after) _ rest in
    let same : r' ≡ r = cc made in
    let body : b ≡ f.payload = unfold header_frame in ground (arith, made) in
    record {
      head = head;
      after = after;
      took_head = read_full-Took 9 s read_head;
      took_payload = read_payload-Took _ after (cc (read_body, same, body));
      made = cc (made, body);
    }

abbrev four : Bytes → Bytes
four h = take 4 (drop 1 h)

uint32-lt : (b : Bytes) → IsBytes b → uint32 b < 2 ^ 32
unfolding uint32
uint32-lt (a ∷ b ∷ c ∷ d ∷ r) v = omega arith
uint32-lt _ v = omega arith

first-lt : (b : Bytes) → IsBytes b → first b < 256
unfolding first
first-lt [] v = omega arith
first-lt (a ∷ b) v = v.0

header_frame-IsFrame : (h b : Bytes) → IsBytes h → IsBytes b → IsFrame (header_frame h b)
unfolding header_frame
header_frame-IsFrame h b v w = record {
  type_fits = first-lt h v;
  id_fits = uint32-lt (four h) (All-take (λ x. x < 256) 4 _ (All-drop (λ x. x < 256) 1 h v));
  payload_bytes = w;
}

-- Whatever `DecodeFrame` accepts is the encoding of the frame that it returns, followed by exactly
-- what it leaves unread; the frame's fields are in the ranges of their types, and its payload is
-- shorter than 2^32.
pub encode_frame-decode_frame :
    (s : Stream) (f : Frame) (r : Stream)
    → IsBytes s.bytes
    → decode_frame s ≡ ok (f, r)
    → IsFrame f
      × (length f.payload < 2 ^ 32)
      × ((b : Bytes) × (encode_frame (some f) ≡ ok b) × (s.bytes ≡ b ++ r.bytes))
      × (r.ending ≡ s.ending)
encode_frame-decode_frame s f r v h =
    let p = decode_frame-Parts s h in
    let (head_bytes, after_bytes) = p.took_head.read_bytes v in
    let (payload_bytes, _) = p.took_payload.read_bytes after_bytes in
    let fits = header_frame-IsFrame p.head f.payload head_bytes payload_bytes in
    let announced = sym p.took_payload.count in
    let same : header f ≡ p.head =
      ap header p.made ∙ header_lem p.head f.payload p.took_head.count announced head_bytes in
    let whole : s.bytes ≡ layout f ++ r.bytes =
      p.took_head.split
      ∙ ap (λ x. p.head ++ x) p.took_payload.split
      ∙ sym (append_assoc p.head f.payload r.bytes)
      ∙ ap (λ x. x ++ f.payload ++ r.bytes) (sym same) in
    (
      rw p.made fits,
      rw p.took_payload.count (uint32-lt _ (All-drop (λ x. x < 256) 5 p.head head_bytes)),
      (layout f, encode_frame-layout f, whole),
      p.took_payload.ending ∙ p.took_head.ending,
    )

-- A decoded frame takes at least its header off the stream.
pub decode_frame_shorter :
    (s : Stream) (f : Frame) (r : Stream)
    → decode_frame s ≡ ok (f, r)
    → length r.bytes + 9 ≤ length s.bytes
decode_frame_shorter s f r h =
    let p = decode_frame-Parts s h in
    omega (
      arith,
      ap length p.took_head.split,
      ap length p.took_payload.split,
      length-append p.head p.after.bytes,
      length-append f.payload r.bytes,
      p.took_head.count,
    )
