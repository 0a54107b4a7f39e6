-- ===== src/Tunnel/Client/Frames/Said.antt =====
-- What the handlers of frames say to the server: CLOSE_CONN at most.
use ngp_mtls.Prelude.{
  ℕ, ◌^◌, ◌<◌, ◌≡◌, refl, ap, sym, ◌∙◌, inl, inr, Bool-cases, Option, Option-cases, none, some,
  Error, length, ltb, lookup, nat_eq, arith, ◌==◌, if◌then◌else◌,
}
use ngp_mtls.Proto
use ngp_mtls.Proto.{Frame, bare_frame}
use ngp_mtls.Proto.RoundTrip.{bare_frame-IsSendable}
use ngp_mtls.Tunnel.Net.{write}
use ngp_mtls.Tunnel.Saying.{silence, Says-write_other}
use ngp_mtls.Tunnel.Client.{Client, send_close_frame}
use ngp_mtls.Tunnel.Client.Steps.{send_close_frame-sent}
use ngp_mtls.Tunnel.Client.Sound.{IsSound}
use ngp_mtls.Tunnel.Client.Moves.{Moves, Moves-quiet, Moves-refl, Moves-trans, Moves-tell}
use ngp_mtls.Tunnel.Client.Frames.{
  handle_new_conn, handle_data_frame, handle_close_frame, handle_frame,
}
use ngp_mtls.Tunnel.Client.Frames.Cases.{
  send_close_frame_alone, data_fails, data_written, data_empty, data_unknown, close_unknown,
  close_known, frame_ignored,
}
use ngp_mtls.Tunnel.Client.Frames.Sound.{new_granted, new_refused, offered-IsSound}
use ngp_mtls.Tunnel.Client.System.{offered}

pub send_close_frame-Moves :
    (k : ℕ) (s : Client) → k < 2 ^ 32 → Moves silence s (send_close_frame k s).1
send_close_frame-Moves k s fits = elim (Option-cases s.control_conn) [
  | inl alone ↦ rw (send_close_frame_alone k s alone) (Moves-refl s)
  | inr (c, h) ↦ rw (send_close_frame-sent k c s h) (
      Moves-tell s c (bare_frame Proto.close k) h
        (bare_frame-IsSendable Proto.close k (omega arith) fits) (λ i. refl))
]

-- After something that says nothing.
then_tells :
    (k : ℕ) (s t : Client)
    → k < 2 ^ 32
    → Moves silence s t
    → Moves silence s (send_close_frame k t).1
then_tells k s t fits m = Moves-trans s t _ m (send_close_frame-Moves k t fits)

module _ {n : ℕ} (f : Frame) (s : Client) (v : IsSound n s) (fits : f.conn_id < 2 ^ 32) where
  written-Moves :
      (l : ℕ)
      → lookup f.conn_id s.conn_map ≡ some l
      → Moves silence s (record s { net = (write l f.payload s.net).1 })
  written-Moves l there = record {
    control = refl;
    says = λ c h.
        Says-write_other s.net c l f.payload
          (λ e. v.apart f.conn_id l (v.mapped f.conn_id l there) (h ∙ ap some (sym e)));
  }

  handle_data_frame-Moves : Moves silence s (handle_data_frame f s).1
  handle_data_frame-Moves = elim (Option-cases (lookup f.conn_id s.conn_map)) [
    | inl gone ↦ rw (data_unknown f s gone) (Moves-refl s)
    | inr (l, there) ↦ elim (Bool-cases (ltb 0 (length f.payload))) [
      | inr empty ↦ rw (data_empty f s l there empty) (Moves-refl s)
      | inl some_bytes ↦ elim (Option-cases (write l f.payload s.net).0) [
        | inl good ↦ rw (data_written f s l there some_bytes good) (written-Moves l there)
        | inr (e, bad) ↦
            let t = record s { net = (write l f.payload s.net).1 } in
            rw (data_fails f s l e there some_bytes bad) (
              then_tells f.conn_id s _ fits (
                Moves-trans s t _ (written-Moves l there)
                  (Moves-quiet t _ refl (λ c h. refl) (λ c h. refl))))
      ]
    ]
  ]

  handle_close_frame-Moves : Moves silence s (handle_close_frame f s).1
  handle_close_frame-Moves = elim (Option-cases (lookup f.conn_id s.conn_map)) [
    | inl gone ↦ rw (close_unknown f s gone) (Moves-quiet s _ refl (λ c h. refl) (λ c h. refl))
    | inr (l, there) ↦
        rw (close_known f s l there)
          (then_tells f.conn_id s _ fits (Moves-quiet s _ refl (λ c h. refl) (λ c h. refl)))
  ]

  handle_new_conn-Moves : (r : Option Error) → Moves silence s (handle_new_conn f (offered n r s)).1
  handle_new_conn-Moves none =
      rw (new_granted f s v fits)
        (Moves-quiet s _ refl (λ c h. ground (arith, v.control_below c h)) (λ c h. refl))
  handle_new_conn-Moves (some e) =
      rw (new_refused f s v fits e)
        (then_tells f.conn_id s _ fits (Moves-quiet s _ refl (λ c h. refl) (λ c h. refl)))

offer-Moves : (n : ℕ) (r : Option Error) (s : Client) → Moves silence s (offered n r s)
offer-Moves n none s = Moves-quiet s (offered n none s) refl (λ c h. refl) (λ c h. refl)
offer-Moves n (some e) s = Moves-quiet s (offered n (some e) s) refl (λ c h. refl) (λ c h. refl)

-- Any frame.
pub handle_frame-Moves :
    {n : ℕ} (f : Frame) (r : Option Error) (s : Client)
    → IsSound n s
    → f.conn_id < 2 ^ 32
    → Moves silence s (handle_frame f (offered n r s)).1
unfolding handle_frame
handle_frame-Moves {n} f r s v fits =
    let w = offered-IsSound r s v in
    let t = offered n r s in
    elim (Bool-cases (f.frame_type == Proto.new_conn)) [
      | inl a ↦ rw (a, if◌then◌else◌) (handle_new_conn-Moves f s v fits r)
      | inr a ↦ elim (Bool-cases (f.frame_type == Proto.data_type)) [
        | inl b ↦
            rw (a, b, if◌then◌else◌)
              (Moves-trans s t _ (offer-Moves n r s) (handle_data_frame-Moves f t w fits))
        | inr b ↦ elim (Bool-cases (f.frame_type == Proto.close)) [
          | inl c ↦
              rw (a, b, c, if◌then◌else◌)
                (Moves-trans s t _ (offer-Moves n r s) (handle_close_frame-Moves f t w fits))
          | inr c ↦ rw (frame_ignored f t a b c) (offer-Moves n r s)
        ]
      ]
    ]
