-- ===== src/Proto/Errors.antt =====
-- What `DecodeFrame` reports when the stream ends inside a frame.
use ngp_mtls.Prelude.{
  ℕ, suc, zero, ◌-◌, ◌^◌, ◌≤◌, ◌<◌, ◌≡◌, refl, ap, ◌∙◌, ◌⊎◌, inl, inr, some, [], ◌∷◌, ◌++◌, arith,
  Bytes, length, length-append, length-take, take, drop, ◌==◌, if◌then◌else◌, ◌||◌, Error, err,
  lt→ltb,
}
use ngp_mtls.Proto.{
  Frame, uint32, encode_frame, read_full, read_payload, mid_read, decode_frame, ◌>>=◌,
}
use ngp_mtls.Proto.RoundTrip.{
  header, layout, stream, length-header, uint32-header, encode_frame-layout, read_full-append,
}

-- The error for a stream that ends with `e` behind the first `k` bytes of a frame: both reads of
-- `DecodeFrame` start afresh, so that 9 bytes count as a clean end, like 0.
abbrev pub cut_error : ℕ → Error → Error
cut_error k e = if k == 0 || k == 9 then e else mid_read e

pub read_full-short :
    (n : ℕ) (b : Bytes) (e : Error)
    → length b < n
    → read_full n (stream b e) ≡ err (if length b == 0 then e else mid_read e)
unfolding read_full
read_full-short n b e h = ground arith

read_payload-short :
    (n : ℕ) (b : Bytes) (e : Error)
    → length b < n
    → read_payload n (stream b e) ≡ err (if length b == 0 then e else mid_read e)
unfolding read_payload
read_payload-short n b e h = rw (lt→ltb 0 n (omega arith)) (read_full-short n b e h)

-- The stream ends inside the header.
decode_frame-short_header :
    (b : Bytes) (e : Error)
    → length b < 9
    → decode_frame (stream b e) ≡ err (cut_error (length b) e)
unfolding decode_frame
decode_frame-short_header b e h = rw (read_full-short 9 b e h) (ground arith)

-- The stream ends between two frames.
pub decode_frame_end : (e : Error) → decode_frame (stream [] e) ≡ err e
decode_frame_end e = decode_frame-short_header [] e (omega arith)

-- The stream ends inside the payload.
decode_frame-short_payload :
    (h b : Bytes) (e : Error)
    → length h ≡ 9
    → length b < uint32 (drop 5 h)
    → decode_frame (stream (h ++ b) e) ≡ err (cut_error (length (h ++ b)) e)
unfolding decode_frame
decode_frame-short_payload h b e nine short =
    rw (read_full-append 9 h b e nine, read_payload-short (uint32 (drop 5 h)) b e short)
      (ground (arith, length-append h b))

-- A proper prefix of a text is a prefix of its first part, or goes past it.
take-append-cases :
    (k : ℕ) (h p : Bytes)
    → ((k < length h) × (length (take k (h ++ p)) ≡ k))
      ⊎ ((length h ≤ k) × (take k (h ++ p) ≡ h ++ take (k - length h) p))
take-append-cases zero [] p = inr (omega arith, refl)
take-append-cases zero (x ∷ h) p = inl (omega arith, refl)
take-append-cases (suc k) [] p =
    let e : suc k ≡ suc k - 0 = omega arith in inr (omega arith, ap (λ n. take n p) e)
take-append-cases (suc k) (x ∷ h) p = elim (take-append-cases k h p) [
  | inl (lt, eq) ↦ inl (omega arith, ap suc eq)
  | inr (le, eq) ↦
      let e : k - length h ≡ suc k - suc (length h) = omega arith in
      inr (omega arith, ap (◌∷◌ x) (eq ∙ ap (λ n. h ++ take n p) e))
]

-- The first `k` bytes of a header and the payload that it announces.
decode_frame-take :
    (h p : Bytes) (k : ℕ) (e : Error)
    → length h ≡ 9
    → uint32 (drop 5 h) ≡ length p
    → k < length (h ++ p)
    → decode_frame (stream (take k (h ++ p)) e) ≡ err (cut_error k e)
decode_frame-take h p k e nine announced short = elim (take-append-cases k h p) [
  | inl (inside, len) ↦
      decode_frame-short_header _ e (omega arith) ∙ ap (λ n. err (cut_error n e)) len
  | inr (beyond, split) ↦
      let cut = take (k - length h) p in
      let len : length cut ≡ k - length h =
        length-take (k - length h) p (omega (arith, length-append h p)) in
      let whole : length (h ++ cut) ≡ k = omega (arith, length-append h cut, len) in
      ap (λ b. decode_frame (stream b e)) split
      ∙ decode_frame-short_payload h cut e nine (omega (arith, len, length-append h p, announced))
      ∙ ap (λ n. err (cut_error n e)) whole
]

-- A frame that is cut off: if only its first `k` bytes arrive before the stream ends with the error
-- `e`, no frame is returned. The error is `e` itself if no byte arrived or exactly the header did;
-- otherwise an end of file becomes an unexpected one.
pub decode_frame_cut :
    (f : Frame) (k : ℕ) (e : Error)
    → length f.payload < 2 ^ 32
    → k < length (layout f)
    → (do b ← encode_frame (some f); decode_frame (stream (take k b) e)) ≡ err (cut_error k e)
decode_frame_cut f k e fits short =
    rw (encode_frame-layout f)
      (decode_frame-take (header f) f.payload k e (length-header f) (uint32-header f fits) short)
