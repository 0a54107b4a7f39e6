-- ===== src/Tunnel/Client/Forward/Sound.antt =====
-- A round of a goroutine that reads a local connection, and its end, keep a sound client.
use ngp_mtls.Prelude.{
  Has, ℕ, ◌^◌, ◌<◌, ◌≡◌, refl, ap, ◌⊎◌, inl, inr, Bool-cases, true, false, Option-cases, none, some,
  List, [], ◌∷◌, Bytes, length, ltb, delete, lookup-delete, nat_eq, arith, ◌==◌, ◌&&◌,
  if◌then◌else◌,
}
use ngp_mtls.Proto
use ngp_mtls.Proto.{Frame, bare_frame, data_frame}
use ngp_mtls.Proto.RoundTrip.{layout}
use ngp_mtls.Tunnel.Net.{write, close}
use ngp_mtls.Tunnel.Framed.{IsFramed-same}
use ngp_mtls.Tunnel.Client.{Client, send_close_frame}
use ngp_mtls.Tunnel.Client.Steps.{send_lem}
use ngp_mtls.Tunnel.Client.Sound.{IsSound, IsSound-send}
use ngp_mtls.Tunnel.Client.Frames.Sound.{send_close_frame-IsSound}
use ngp_mtls.Tunnel.Client.Forward.{
  Poll, ctx_done, got, failed, forward, forward_round, forward_local,
}
use ngp_mtls.Tunnel.Client.System.{IsPoll, without, after_round}

Has-without : (k l j m : ℕ) (ts : List (ℕ × ℕ)) → Has (j, m) (without k l ts) → Has (j, m) ts
Has-without k l j m [] h = h
Has-without k l j m ((a, b) ∷ ts) h = elim (Bool-cases (a == k && b == l)) [
  | inl gone ↦ inr (Has-without k l j m ts (rw (gone, if◌then◌else◌) at h))
  | inr kept ↦ elim (the_rest kept h) [
    | inl e ↦ inl e
    | inr there ↦ inr (Has-without k l j m ts there)
  ]
]
  where
    the_rest :
        (a == k && b == l) ≡ false
        → Has (j, m) (without k l ((a, b) ∷ ts))
        → Has (j, m) ((a, b) ∷ without k l ts)
    the_rest kept h = rw (kept, if◌then◌else◌) at h

without-Has :
    (k l j m : ℕ) (ts : List (ℕ × ℕ))
    → Has (j, m) ts
    → ((j ≡ k) × (m ≡ l)) ⊎ Has (j, m) (without k l ts)
without-Has k l j m [] h = absurd h
without-Has k l j m ((a, b) ∷ ts) h = elim (Bool-cases (a == k && b == l)) [
  | inl gone ↦
      rw (gone, if◌then◌else◌)
        (elim h [
          | inl e ↦ inl (ground (arith, gone, ap (λ z. z.0) e, ap (λ z. z.1) e))
          | inr there ↦ without-Has k l j m ts there
        ])
  | inr kept ↦
      rw (kept, if◌then◌else◌)
        (elim h [
          | inl e ↦ inr (inl e)
          | inr there ↦ elim (without-Has k l j m ts there) [
            | inl e ↦ inl e
            | inr still ↦ inr (inr still)
          ]
        ])
]

module _ {n : ℕ} (k l : ℕ) (s : Client) (v : IsSound n s) where
  -- The goroutine of `l` closes it, takes its entry out of the map, and is gone.
  ended-IsSound : IsSound n (record s {
    net = close l s.net;
    conn_map = delete k s.conn_map;
    tasks = without k l s.tasks;
  })
  ended-IsSound = record {
    init_fits = v.init_fits;
    control_below = v.control_below;
    tasks_below = λ j m h. v.tasks_below j m (Has-without k l j m s.tasks h);
    apart = λ j m h. v.apart j m (Has-without k l j m s.tasks h);
    stream = λ c h. IsFramed-same s.net (close l s.net) c (v.stream c h) (λ fs q. q) refl refl;
    mapped = λ j m h.
        elim (without-Has k l j m s.tasks
          (v.mapped j m (ground (arith, lookup-delete k j s.conn_map)))) [
            | inl (same, at) ↦ absurd (ground (arith, lookup-delete k j s.conn_map))
            | inr there ↦ there
          ];
    accounted = λ c open_still. elim (v.accounted c (ground arith)) [
      | inl e ↦ inl e
      | inr (j, there) ↦ elim (without-Has k l j c s.tasks there) [
        | inl (same, at) ↦ absurd (ground arith)
        | inr still ↦ inr (j, still)
      ]
    ];
  }

module _ {n : ℕ} (k : ℕ) (s : Client) (v : IsSound n s) (fits : k < 2 ^ 32) where
  pub forward_alone : (b : Bytes) → s.control_conn ≡ none → (forward k b s).1 ≡ s
  unfolding forward
  forward_alone b h = ground arith

  forward_sends :
      (b : Bytes) (c : ℕ)
      → s.control_conn ≡ some c
      → (forward k b s).1 ≡ record s { net = (write c (layout (data_frame k b)) s.net).1 }
  unfolding forward
  forward_sends b c h = ground (arith, send_lem c (data_frame k b) s)

  forward-IsSound : (b : Bytes) → IsPoll (got b) → IsSound n (forward k b s).1
  forward-IsSound b q = elim (Option-cases s.control_conn) [
    | inl alone ↦ rw (forward_alone b alone) v
    | inr (c, h) ↦ rw (forward_sends b c h) (
        IsSound-send s v c (data_frame k b) h (
          record { type_fits = omega arith; id_fits = fits; payload_bytes = q.0 },
          omega (arith, q.1),
        ))
  ]

  forward_round-IsSound : (poll : Poll) → IsPoll poll → IsSound n (forward_round k poll s).1
  unfolding forward_round
  forward_round-IsSound ctx_done q = send_close_frame-IsSound k s v fits
  forward_round-IsSound (failed e) q = send_close_frame-IsSound k s v fits
  forward_round-IsSound (got []) q = v
  forward_round-IsSound (got (x ∷ b)) q =
      let some_bytes : ltb 0 (length (x ∷ b)) ≡ true = ground arith in
      rw (some_bytes, if◌then◌else◌) (forward-IsSound (x ∷ b) q)

  -- A round of the goroutine of `l`, and what follows if it is the last.
  pub after_round-IsSound :
      (l : ℕ) (poll : Poll)
      → IsPoll poll
      → IsSound n (after_round k l (forward_local k l (poll ∷ []) s))
  unfolding forward_local
  after_round-IsSound l poll q = elim (Bool-cases (forward_round k poll s).0) [
    | inl again ↦ rw (again, if◌then◌else◌) (forward_round-IsSound poll q)
    | inr last ↦ rw (last, if◌then◌else◌) (ended-IsSound k l _ (forward_round-IsSound poll q))
  ]

send_close_frame-tasks : (k : ℕ) (s : Client) → (send_close_frame k s).1.tasks ≡ s.tasks
unfolding send_close_frame
send_close_frame-tasks k s = elim (Option-cases s.control_conn) [
  | inl alone ↦ ground arith
  | inr (c, h) ↦ ground (arith, send_lem c (bare_frame Proto.close k) s)
]

-- When the context is cancelled, the next round of a goroutine is its last.
pub cancelled_round :
    (k l : ℕ) (s : Client)
    → (after_round k l (forward_local k l (ctx_done ∷ []) s)).tasks ≡ without k l s.tasks
unfolding forward_local forward_round
cancelled_round k l s = ap (without k l) (send_close_frame-tasks k s)
