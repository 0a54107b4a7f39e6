-- ===== src/Tunnel/Client/Frames/Shut.antt =====
-- Frames open no connection but those that dials to the local service return, and leave the control
-- connection alone.
use ngp_mtls.Prelude.{
  Option, ℕ, ◌≡◌, ◌≢◌, ◌∙◌, sym, ap, inl, inr, Bool, Bool-cases, false, Option-cases, Result-cases,
  some, List, [], ◌∷◌, All, Bytes, Result, ok, err, length, ltb, lookup, nat_eq, arith, ◌==◌,
  if◌then◌else◌,
}
use ngp_mtls.Proto
use ngp_mtls.Proto.{Frame, Stream, bare_frame}
use ngp_mtls.Tunnel.Net.{Net, write, close, dial, dial_rest, dial_other}
use ngp_mtls.Tunnel.Client.{Client, send_close_frame}
use ngp_mtls.Tunnel.Client.Steps.{send_close_frame-sent}
use ngp_mtls.Tunnel.Client.Frames.{
  handle_new_conn, handle_data_frame, handle_close_frame, handle_frame, handle_all,
  handle_connection,
}
use ngp_mtls.Tunnel.Client.Frames.Cases.{
  send_close_frame_alone, data_fails, data_written, data_empty, data_unknown, close_unknown,
  close_known, frame_ignored, new_dialled, new_failed,
}

-- The control connection is `h`; `c` is closed unless it is that one, and no dial will return it.
pub record IsShut (c : ℕ) (h : Option ℕ) (s : Client) : Type 0 where
  pub control : s.control_conn ≡ h
  pub shut : h ≢ some c → s.net.is_open c ≡ false
  pub undialled : All (λ r. r ≢ ok c) s.net.dials

module _ (c : ℕ) (h : Option ℕ) where
  pub IsShut-write :
      (s : Client) (d : ℕ) (b : Bytes)
      → IsShut c h s
      → IsShut c h (record s { net = (write d b s.net).1 })
  unfolding write
  IsShut-write s d b v = elim (Bool-cases (s.net.is_open d)) [
    | inl there ↦ record {
      control = v.control;
      shut = λ ne. ground (arith, v.shut ne);
      undialled = rw (there, if◌then◌else◌) v.undialled;
    }
    | inr gone ↦ record {
      control = v.control;
      shut = λ ne. ground (arith, v.shut ne);
      undialled = rw (gone, if◌then◌else◌) v.undialled;
    }
  ]

  pub IsShut-close :
      (s : Client) (d : ℕ) (m : List (ℕ × ℕ))
      → IsShut c h s
      → IsShut c h (record s { net = close d s.net; conn_map = m })
  IsShut-close s d m v = record {
    control = v.control;
    shut = λ ne. ground (arith, v.shut ne);
    undialled = v.undialled;
  }

  send_close_frame-IsShut :
      (k : ℕ) (s : Client) → IsShut c h s → IsShut c h (send_close_frame k s).1
  send_close_frame-IsShut k s v = elim (Option-cases s.control_conn) [
    | inl alone ↦ rw (send_close_frame_alone k s alone) v
    | inr (d, there) ↦ rw (send_close_frame-sent k d s there) (IsShut-write s d _ v)
  ]

  dialled-IsShut :
      (s : Client) (r : Result ℕ) (w : Net)
      → IsShut c h s
      → dial s.net ≡ (r, w)
      → IsShut c h (record s { net = w })
  dialled-IsShut s r w v e = record {
    control = v.control;
    shut = λ ne. sym (ap (λ z. z.1.is_open c) e) ∙ ((dial_other s.net c v.undialled).1 ∙ v.shut ne);
    undialled = rw e at (dial_rest (λ r. r ≢ ok c) s.net v.undialled);
  }

  module _ (f : Frame) (s : Client) (v : IsShut c h s) where
    handle_new_conn-IsShut : IsShut c h (handle_new_conn f s).1
    handle_new_conn-IsShut = elim (Result-cases (dial s.net).0) [
      | inl (e, bad) ↦
          let dials : dial s.net ≡ (err e, (dial s.net).1) = ap (λ z. (z, (dial s.net).1)) bad in
          rw (new_failed f s e (dial s.net).1 dials)
            (send_close_frame-IsShut f.conn_id _ (dialled-IsShut s (err e) (dial s.net).1 v dials))
      | inr (l, good) ↦
          let dials : dial s.net ≡ (ok l, (dial s.net).1) = ap (λ z. (z, (dial s.net).1)) good in
          let u = dialled-IsShut s (ok l) (dial s.net).1 v dials in
          rw (new_dialled f s l (dial s.net).1 dials)
            (record { control = u.control; shut = u.shut; undialled = u.undialled })
    ]

    handle_data_frame-IsShut : IsShut c h (handle_data_frame f s).1
    handle_data_frame-IsShut = elim (Option-cases (lookup f.conn_id s.conn_map)) [
      | inl gone ↦ rw (data_unknown f s gone) v
      | inr (l, there) ↦ elim (Bool-cases (ltb 0 (length f.payload))) [
        | inr empty ↦ rw (data_empty f s l there empty) v
        | inl some_bytes ↦ elim (Option-cases (write l f.payload s.net).0) [
          | inl good ↦ rw (data_written f s l there some_bytes good) (IsShut-write s l f.payload v)
          | inr (e, bad) ↦ rw (data_fails f s l e there some_bytes bad) (
              send_close_frame-IsShut f.conn_id _
                (IsShut-close _ l _ (IsShut-write s l f.payload v)))
        ]
      ]
    ]

    handle_close_frame-IsShut : IsShut c h (handle_close_frame f s).1
    handle_close_frame-IsShut = elim (Option-cases (lookup f.conn_id s.conn_map)) [
      | inl gone ↦
          rw (close_unknown f s gone)
            (record { control = v.control; shut = v.shut; undialled = v.undialled })
      | inr (l, there) ↦
          rw (close_known f s l there) (send_close_frame-IsShut f.conn_id _ (IsShut-close s l _ v))
    ]

    handle_frame-IsShut : IsShut c h (handle_frame f s).1
    unfolding handle_frame
    handle_frame-IsShut = elim (Bool-cases (f.frame_type == Proto.new_conn)) [
      | inl a ↦ rw (a, if◌then◌else◌) handle_new_conn-IsShut
      | inr a ↦ elim (Bool-cases (f.frame_type == Proto.data_type)) [
        | inl b ↦ rw (a, b, if◌then◌else◌) handle_data_frame-IsShut
        | inr b ↦ elim (Bool-cases (f.frame_type == Proto.close)) [
          | inl d ↦ rw (a, b, d, if◌then◌else◌) handle_close_frame-IsShut
          | inr d ↦ rw (frame_ignored f s a b d) v
        ]
      ]
    ]

  handle_all-IsShut : (fs : List Frame) (s : Client) → IsShut c h s → IsShut c h (handle_all fs s).1
  unfolding handle_all
  handle_all-IsShut [] s v = v
  handle_all-IsShut (f ∷ fs) s v =
      handle_all-IsShut fs (handle_frame f s).1 (handle_frame-IsShut f s v)

  pub handle_connection-IsShut :
      (served : ℕ) (stop : Bool) (r : Stream) (s : Client)
      → IsShut c h s
      → IsShut c h (handle_connection served stop r s).1
  unfolding handle_connection
  handle_connection-IsShut served stop r s v = handle_all-IsShut _ s v
