-- ===== src/Tunnel/Client/Frames/Serve.antt =====
-- The connection to the server: the reading goroutine ends, and the frames are handled in order.
use ngp_mtls.Prelude.{
  ℕ, zero, suc, ◌<◌, ◌≤◌, ◌≡◌, refl, ap, ◌∙◌, Bool, true, false, Result-cases, some, List, [], ◌∷◌,
  length, take_all, arith, ok, err, Error, All, inl, inr, length-append, cancelled,
}
use ngp_mtls.Proto.{Frame, Stream, decode_frame}
use ngp_mtls.Proto.RoundTrip.{layout, wire, IsSendable, stream, decode_frame-layout}
use ngp_mtls.Proto.Errors.{decode_frame_end}
use ngp_mtls.Proto.Sound.{decode_frame_shorter}
use ngp_mtls.Tunnel.Client.{Client}
use ngp_mtls.Tunnel.Client.Frames.{read_frames, handle_all, handle_connection}

read_frames_ended :
    (n : ℕ) (r : Stream) (e : Error) → decode_frame r ≡ err e → read_frames (suc n) r ≡ ([], some e)
unfolding read_frames
read_frames_ended n r e d = rw (d, read_frames)

read_frames_decoded :
    (n : ℕ) (r : Stream) (f : Frame) (rest : Stream)
    → decode_frame r ≡ ok (f, rest)
    → read_frames (suc n) r ≡ (f ∷ (read_frames n rest).0, (read_frames n rest).1)
unfolding read_frames
read_frames_decoded n r f rest d = rw (d, read_frames)

-- The reading goroutine ends with an error, whatever bytes arrive: one round more than there are
-- bytes is enough.
pub read_frames_ends :
    (n : ℕ) (r : Stream) → length r.bytes < n → (e : Error) × ((read_frames n r).1 ≡ some e)
read_frames_ends zero r fuel = absurd (omega arith)
read_frames_ends (suc n) r fuel = elim (Result-cases (decode_frame r)) [
  | inl (e, d) ↦ (e, ap (λ z. z.1) (read_frames_ended n r e d))
  | inr ((f, rest), d) ↦
      let (e, ended) = read_frames_ends n rest (omega (arith, decode_frame_shorter r f rest d)) in
      (e, ap (λ z. z.1) (read_frames_decoded n r f rest d) ∙ ended)
]

pub read_frames-wire :
    (n : ℕ) (fs : List Frame) (e : Error)
    → All IsSendable fs
    → length fs < n
    → read_frames n (stream (wire fs) e) ≡ (fs, some e)
read_frames-wire zero fs e v fuel = absurd (omega arith)
read_frames-wire (suc n) [] e v fuel = read_frames_ended n (stream [] e) e (decode_frame_end e)
read_frames-wire (suc n) (f ∷ fs) e v fuel =
    read_frames_decoded n _ f (stream (wire fs) e) (decode_frame-layout f (wire fs) e v.0.0 v.0.1)
    ∙ ap (λ z. (f ∷ z.0, z.1)) (read_frames-wire n fs e v.1 (omega arith))

-- Each frame has bytes.
pub frames≤bytes : (fs : List Frame) → length fs ≤ length (wire fs)
frames≤bytes [] = omega arith
frames≤bytes (f ∷ fs) = omega (arith, frames≤bytes fs, length-append (layout f) (wire fs))

-- When the bytes of a list of frames arrive on the connection and then it ends with an error, and
-- `select` takes all of the frames first, exactly these frames are handled, in their order, and
-- `handleConnection` returns that error.
pub handle_connection-wire :
    (served : ℕ) (fs : List Frame) (e : Error) (s : Client)
    → All IsSendable fs
    → length fs ≤ served
    → handle_connection served false (stream (wire fs) e) s ≡ (some e, (handle_all fs s).1)
unfolding handle_connection
handle_connection-wire served fs e s v all =
    rw
      (
        read_frames-wire (suc (length (wire fs))) fs e v (omega (arith, frames≤bytes fs)),
        take_all served fs all,
      )
      refl

-- `handleConnection` always returns an error, whatever arrives and whenever it stops.
pub handle_connection_ends :
    (served : ℕ) (stop : Bool) (r : Stream) (s : Client)
    → (e : Error) × ((handle_connection served stop r s).0 ≡ some e)
unfolding handle_connection
handle_connection_ends served true r s = (cancelled, refl)
handle_connection_ends served false r s = read_frames_ends (suc (length r.bytes)) r (omega arith)
