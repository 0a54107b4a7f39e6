-- ===== src/Tunnel/Client/Frames/Sound.antt =====
-- The handlers of frames keep a sound client.
use ngp_mtls.Prelude.{
  ℕ, suc, ◌^◌, ◌<◌, ◌≡◌, refl, inl, inr, Bool-cases, Option, Option-cases, none, some, [], ◌∷◌,
  Error, ok, err, length, ltb, lookup, insert, nat_eq, arith, ◌==◌, if◌then◌else◌,
}
use ngp_mtls.Proto
use ngp_mtls.Proto.{Frame, bare_frame}
use ngp_mtls.Tunnel.Net.{Net, write, opened, dial}
use ngp_mtls.Tunnel.Framed.{IsFramed-same}
use ngp_mtls.Tunnel.Client.{Client, send_close_frame}
use ngp_mtls.Tunnel.Client.Steps.{send_close_frame-sent}
use ngp_mtls.Tunnel.Client.Sound.{
  IsSound, IsSound-later, IsSound-net, IsSound-close, IsSound-send, IsSound-write, IsSound-delete,
  IsSound-local,
}
use ngp_mtls.Tunnel.Client.Frames.{
  handle_new_conn, dial_local, handle_data_frame, handle_close_frame, handle_frame,
}
use ngp_mtls.Tunnel.Client.Frames.Cases.{
  send_close_frame_alone, data_fails, data_written, data_empty, data_unknown, close_unknown,
  close_known, frame_ignored,
}
use ngp_mtls.Tunnel.Client.System.{offered}

pub send_close_frame-IsSound :
    {n : ℕ} (k : ℕ) (s : Client) → IsSound n s → k < 2 ^ 32 → IsSound n (send_close_frame k s).1
send_close_frame-IsSound k s v fits = elim (Option-cases s.control_conn) [
  | inl alone ↦ rw (send_close_frame_alone k s alone) v
  | inr (c, h) ↦ rw (send_close_frame-sent k c s h) (
      IsSound-send s v c (bare_frame Proto.close k) h
        (record { type_fits = omega arith; id_fits = fits; payload_bytes = tt }, omega arith))
]

dials-IsSound :
    {n : ℕ} (s : Client) (v : IsSound n s) (w : Net)
    → w.sent ≡ s.net.sent
    → w.limit ≡ s.net.limit
    → w.is_open ≡ s.net.is_open
    → IsSound n (record s { net = w })
dials-IsSound s v w sent limit same =
    IsSound-net s v w
      (λ c h.
        IsFramed-same s.net w c (v.stream c h) (λ fs q. q) (ground (arith, sent))
          (ground (arith, limit)))
      (λ c h. ground (arith, same))

module _ {n : ℕ} (f : Frame) (s : Client) (v : IsSound n s) (fits : f.conn_id < 2 ^ 32) where
  handle_data_frame-IsSound : IsSound n (handle_data_frame f s).1
  handle_data_frame-IsSound = elim (Option-cases (lookup f.conn_id s.conn_map)) [
    | inl gone ↦ rw (data_unknown f s gone) v
    | inr (l, there) ↦ elim (Bool-cases (ltb 0 (length f.payload))) [
      | inr empty ↦ rw (data_empty f s l there empty) v
      | inl some_bytes ↦
          let wrote = IsSound-write s v f.conn_id l f.payload (v.mapped f.conn_id l there) in
          elim (Option-cases (write l f.payload s.net).0) [
            | inl good ↦ rw (data_written f s l there some_bytes good) wrote
            | inr (e, bad) ↦ rw (data_fails f s l e there some_bytes bad) (
                send_close_frame-IsSound f.conn_id _
                  (IsSound-delete _ (IsSound-close _ wrote l) f.conn_id) fits)
          ]
    ]
  ]

  handle_close_frame-IsSound : IsSound n (handle_close_frame f s).1
  handle_close_frame-IsSound = elim (Option-cases (lookup f.conn_id s.conn_map)) [
    | inl gone ↦ rw (close_unknown f s gone) (IsSound-delete s v f.conn_id)
    | inr (l, there) ↦ rw (close_known f s l there) (
        send_close_frame-IsSound f.conn_id _ (IsSound-close _ (IsSound-delete s v f.conn_id) l)
          fits)
  ]

  abbrev pub undialled : Net
  undialled = record s.net { dials = [] }

  pub new_granted : (handle_new_conn f (offered n none s)).1 ≡ record s {
    net = opened n undialled;
    conn_map = insert f.conn_id n s.conn_map;
    tasks = (f.conn_id, n) ∷ s.tasks;
  }
  unfolding handle_new_conn dial_local dial
  new_granted = refl

  pub new_refused :
      (e : Error)
      → (handle_new_conn f (offered n (some e) s)).1
        ≡ (send_close_frame f.conn_id (record s { net = undialled })).1
  unfolding handle_new_conn dial_local dial
  new_refused e = refl

  handle_new_conn-IsSound :
      (r : Option Error) → IsSound (suc n) (handle_new_conn f (offered n r s)).1
  handle_new_conn-IsSound none =
      rw new_granted (IsSound-local _ (dials-IsSound s v undialled refl refl refl) f.conn_id fits)
  handle_new_conn-IsSound (some e) = rw (new_refused e) (
      IsSound-later n (suc n) _ (omega arith)
        (send_close_frame-IsSound f.conn_id _ (dials-IsSound s v undialled refl refl refl) fits))

pub offered-IsSound :
    {n : ℕ} (r : Option Error) (s : Client) → IsSound n s → IsSound n (offered n r s)
offered-IsSound {n} none s v = dials-IsSound s v (record s.net { dials = ok n ∷ [] }) refl refl refl
offered-IsSound {n} (some e) s v =
    dials-IsSound s v (record s.net { dials = err e ∷ [] }) refl refl refl

-- Any frame.
pub handle_frame-IsSound :
    {n : ℕ} (f : Frame) (r : Option Error) (s : Client)
    → IsSound n s
    → f.conn_id < 2 ^ 32
    → IsSound (suc n) (handle_frame f (offered n r s)).1
unfolding handle_frame
handle_frame-IsSound {n} f r s v fits =
    let w = offered-IsSound r s v in
    let later = λ (t : Client) (u : IsSound n t). IsSound-later n (suc n) t (omega arith) u in
    elim (Bool-cases (f.frame_type == Proto.new_conn)) [
      | inl a ↦ rw (a, if◌then◌else◌) (handle_new_conn-IsSound f s v fits r)
      | inr a ↦ elim (Bool-cases (f.frame_type == Proto.data_type)) [
        | inl b ↦
            rw (a, b, if◌then◌else◌) (later _ (handle_data_frame-IsSound f (offered n r s) w fits))
        | inr b ↦ elim (Bool-cases (f.frame_type == Proto.close)) [
          | inl c ↦
              rw (a, b, c, if◌then◌else◌)
                (later _ (handle_close_frame-IsSound f (offered n r s) w fits))
          | inr c ↦ rw (frame_ignored f (offered n r s) a b c) (later _ w)
        ]
      ]
    ]
