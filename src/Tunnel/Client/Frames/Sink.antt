-- ===== src/Tunnel/Client/Frames/Sink.antt =====
-- Frames for other connections leave a local connection alone.
use ngp_mtls.Prelude.{
  ℕ, ◌≡◌, ◌≢◌, refl, ap, ◌∙◌, ◌⊎◌, inl, inr, Bool-cases, true, Option-cases, none, some, List, ◌∷◌,
  All, List-split, Bytes, other, Result, ok, err, length, ltb, lookup, delete, lookup-delete,
  lookup-insert, nat_eq, arith,
}
use ngp_mtls.Proto
use ngp_mtls.Proto.{Frame, bare_frame}
use ngp_mtls.Proto.RoundTrip.{layout}
use ngp_mtls.Tunnel.Net.{Net, write, close, opened, dial}
use ngp_mtls.Tunnel.Client.{Client, send_close_frame}
use ngp_mtls.Tunnel.Client.Steps.{send_close_frame-sent}
use ngp_mtls.Tunnel.Client.Frames.{handle_new_conn, handle_data_frame, handle_close_frame}
use ngp_mtls.Tunnel.Client.Frames.Dialled.{dialled}
use ngp_mtls.Tunnel.Client.Frames.Cases.{
  send_close_frame_alone, data_fails, data_written, data_empty, data_unknown, close_unknown,
  close_known, new_dialled, new_failed,
}

-- The local connection `l` is in the map under `k` only, is open and takes all that is written to
-- it, and is neither the control connection nor one that is still to be dialled.
pub record IsSink (s : Client) (k l : ℕ) : Type 0 where
  pub mapped : lookup k s.conn_map ≡ some l
  pub local_open : s.net.is_open l ≡ true
  pub unlimited : s.net.limit l ≡ none
  pub once : (j : ℕ) → lookup j s.conn_map ≡ some l → j ≡ k
  pub undialled : All (λ r. r ≢ ok l) s.net.dials
  pub apart : s.control_conn ≢ some l

-- A frame that neither opens nor closes the connection `k`.
abbrev pub Keeps : ℕ → Frame → Type 0
Keeps k f = (f.conn_id ≢ k) ⊎ ((f.frame_type ≢ Proto.new_conn) × (f.frame_type ≢ Proto.close))

module _ (k l : ℕ) where
  -- Nothing happens to `l`.
  abbrev pub Kept : Client → Client → Type 0
  Kept s s' = (s'.net.sent l ≡ s.net.sent l) × IsSink s' k l

  Kept-trans : (s t u : Client) → Kept s t → Kept t u → Kept s u
  Kept-trans s t u (e, v) (e', v') = (e' ∙ e, v')

  pub Kept-net :
      (s : Client) (w : Net)
      → IsSink s k l
      → w.is_open l ≡ s.net.is_open l
      → w.limit l ≡ s.net.limit l
      → w.sent l ≡ s.net.sent l
      → All (λ r. r ≢ ok l) w.dials
      → Kept s (record s { net = w })
  Kept-net s w v opens limits sends dials = (
    sends,
    record {
      mapped = v.mapped;
      local_open = opens ∙ v.local_open;
      unlimited = limits ∙ v.unlimited;
      once = v.once;
      undialled = dials;
      apart = v.apart;
    },
  )

  pub Kept-write :
      (s : Client) (d : ℕ) (b : Bytes)
      → IsSink s k l
      → d ≢ l
      → Kept s (record s { net = (write d b s.net).1 })
  unfolding write
  Kept-write s d b v ne =
      Kept-net s (write d b s.net).1 v (ground arith) (ground arith) (ground arith)
        (ground (arith, v.undialled))

  Kept-close :
      (s : Client) (d : ℕ) → IsSink s k l → d ≢ l → Kept s (record s { net = close d s.net })
  Kept-close s d v ne = Kept-net s (close d s.net) v (ground arith) refl refl v.undialled

  Kept-delete :
      (s : Client) (j : ℕ)
      → IsSink s k l
      → j ≢ k
      → Kept s (record s { conn_map = delete j s.conn_map })
  Kept-delete s j v ne = (
    refl,
    record {
      mapped = ground (arith, lookup-delete j k s.conn_map, v.mapped);
      local_open = v.local_open;
      unlimited = v.unlimited;
      once = λ i h. v.once i (ground (arith, lookup-delete j i s.conn_map));
      undialled = v.undialled;
      apart = v.apart;
    },
  )

  pub Kept-send : (s : Client) (j : ℕ) → IsSink s k l → Kept s (send_close_frame j s).1
  Kept-send s j v = elim (Option-cases s.control_conn) [
    | inl alone ↦ rw (send_close_frame_alone j s alone) (refl, v)
    | inr (c, h) ↦
        rw (send_close_frame-sent j c s h)
          (Kept-write s c (layout (bare_frame Proto.close j)) v (λ e. v.apart (h ∙ ap some e)))
  ]

  -- Another local connection is closed, and the server is told.
  Kept-drop :
      (s : Client) (j m : ℕ)
      → IsSink s k l
      → j ≢ k
      → m ≢ l
      → Kept s
          (send_close_frame j (record s { net = close m s.net; conn_map = delete j s.conn_map })).1
  Kept-drop s j m v ne ne' =
      let (e, v') = Kept-close s m v ne' in
      let (e', v'') = Kept-delete _ j v' ne in let (e'', w) = Kept-send _ j v'' in (e'' ∙ e' ∙ e, w)

  module _ (f : Frame) (s : Client) (v : IsSink s k l) where
    other_local : (m : ℕ) → f.conn_id ≢ k → lookup f.conn_id s.conn_map ≡ some m → m ≢ l
    other_local m ne there e = ne (v.once f.conn_id (there ∙ ap some e))

    pub data_elsewhere : f.conn_id ≢ k → Kept s (handle_data_frame f s).1
    data_elsewhere ne = elim (Option-cases (lookup f.conn_id s.conn_map)) [
      | inl gone ↦ rw (data_unknown f s gone) (refl, v)
      | inr (m, there) ↦ elim (Bool-cases (ltb 0 (length f.payload))) [
        | inr empty ↦ rw (data_empty f s m there empty) (refl, v)
        | inl some_bytes ↦
            let ne' = other_local m ne there in
            let (e, v') = Kept-write s m f.payload v ne' in
            elim (Option-cases (write m f.payload s.net).0) [
              | inl good ↦ rw (data_written f s m there some_bytes good) (e, v')
              | inr (why, bad) ↦
                  rw (data_fails f s m why there some_bytes bad)
                    (Kept-trans s _ _ (e, v') (Kept-drop _ f.conn_id m v' ne ne'))
            ]
      ]
    ]

    pub close_elsewhere : f.conn_id ≢ k → Kept s (handle_close_frame f s).1
    close_elsewhere ne = elim (Option-cases (lookup f.conn_id s.conn_map)) [
      | inl gone ↦ rw (close_unknown f s gone) (Kept-delete s f.conn_id v ne)
      | inr (m, there) ↦
          rw (close_known f s m there) (Kept-drop s f.conn_id m v ne (other_local m ne there))
    ]

    -- The connection `m` is dialled.
    Kept-new :
        (m : ℕ) (rest : List (Result ℕ))
        → f.conn_id ≢ k
        → s.net.dials ≡ ok m ∷ rest
        → Kept s (dialled s f.conn_id m rest)
    Kept-new m rest ne e =
        let (new, others) = rw e at v.undialled in
        let ne' : m ≢ l = λ h. new (ap ok h) in
        (
          ground arith,
          record {
            mapped = ground (arith, lookup-insert f.conn_id k m s.conn_map, v.mapped);
            local_open = ground (arith, v.local_open);
            unlimited = v.unlimited;
            once = λ i h. v.once i (ground (arith, lookup-insert f.conn_id i m s.conn_map));
            undialled = others;
            apart = v.apart;
          },
        )

    pub new_elsewhere : f.conn_id ≢ k → Kept s (handle_new_conn f s).1
    unfolding dial
    new_elsewhere ne = elim (List-split s.net.dials) [
      | inl none_left ↦ rw (new_failed f s (other 0) s.net (ground arith)) (Kept-send s f.conn_id v)
      | inr (ok m, rest, e) ↦
          let w = opened m (record s.net { dials = rest }) in
          rw (new_dialled f s m w (ground arith)) (Kept-new m rest ne e)
      | inr (err why, rest, e) ↦
          let w = record s.net { dials = rest } in
          let (same, v') = Kept-net s w v refl refl refl (rw e at v.undialled).1 in
          rw (new_failed f s why w (ground arith))
            (Kept-trans s _ _ (same, v') (Kept-send _ f.conn_id v'))
    ]
