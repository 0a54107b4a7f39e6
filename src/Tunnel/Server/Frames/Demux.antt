-- ===== src/Tunnel/Server/Frames/Demux.antt =====
-- What an outside connection gets, among the frames of all connections of its client.
use ngp_mtls.Prelude.{
  ℕ, ◌≡◌, ◌≢◌, refl, ap, sym, ◌∙◌, ◌⊎◌, inl, inr, Bool-cases, true, Option-cases, some, List, [],
  ◌∷◌, ◌++◌, All, List-split, List-cases, Bytes, other, Result, ok, err, length, ltb, lookup,
  update, nat_eq, bytes_eq, arith, ◌==◌, ℤ, pos, positive,
}
use ngp_mtls.Proto
use ngp_mtls.Proto.{Frame, bare_frame}
use ngp_mtls.Proto.Init.{InitConfig, decode_init_config}
use ngp_mtls.Tunnel.Net.{wrote, opened, dial, takes}
use ngp_mtls.Tunnel.Server.{Server, Returns, Returns_mono, client_listener}
use ngp_mtls.Tunnel.Server.Frames.{
  handle_data_frame, handle_close_frame, handle_init_frame, apply_config, listen_for,
}
use ngp_mtls.Tunnel.Server.Frames.Handle.{handle_data_frame-delivers}
use ngp_mtls.Tunnel.Server.Frames.Cases.{
  configured, listen_failed, listen_dialled, init_global, init_own, apply_stops, apply_listens,
  apply_bad, handle_data_frame_idle,
}
use ngp_mtls.Tunnel.Protocol.Carried.{carried, bytes_for, none_carried}
use ngp_mtls.Prelude.{append_assoc, append-nil, if◌then◌else◌}
use ngp_mtls.Tunnel.Server.{Returns-chain, Outcome}
use ngp_mtls.Tunnel.Server.Frames.{handle_frame}
use ngp_mtls.Tunnel.Server.Frames.Loop.{handle_all}
use ngp_mtls.Tunnel.Server.Frames.Cases.{handle_frame_ignored}
use ngp_mtls.Tunnel.Server.Frames.Sink.{
  IsSink, Kept, Kept-net, Kept-info, Kept-tasks, data_elsewhere, close_elsewhere,
}

module _ (id : Bytes) (p k c : ℕ) where
  configured-Kept :
      (s : Server) (addr : Bytes) (port : ℤ)
      → IsSink s id p k c
      → Kept id p k c s (configured s p addr port)
  configured-Kept s addr port v =
      Kept-info id p k c s (record (s.infos p) { local_addr = addr; remote_port = port }) v refl
        v.mapped v.once

  -- A new listener is another one.
  listening-Kept :
      (s : Server) (l : ℕ) (rest : List (Result ℕ))
      → IsSink s id p k c
      → s.net.dials ≡ ok l ∷ rest
      → Kept id p k c s (record s {
        net = opened l (record s.net { dials = rest });
        infos = update s.infos p (record (s.infos p) { public_listener = some l });
        tasks = client_listener id l ∷ s.tasks;
      })
  listening-Kept s l rest v d =
      let (new, others) = rw d at v.undialled in
      let ne : l ≢ c = λ h. new (ap ok h) in
      let w = opened l (record s.net { dials = rest }) in
      let (e, v') = Kept-net id p k c s w v (ground arith) refl (ground arith) others in
      let t = record s { net = w } in
      let (e', v'') =
        Kept-info id p k c t (record (s.infos p) { public_listener = some l }) v' refl v.mapped
          v.once in
      (e, Kept-tasks id p k c _ (client_listener id l ∷ s.tasks) v'')

  listen_for-Kept :
      (s : Server) → IsSink s id p k c → Returns (listen_for id p s) (λ _ s'. Kept id p k c s s')
  unfolding dial
  listen_for-Kept s v = elim (List-split s.net.dials) [
    | inl none_left ↦ rw (listen_failed id p s (other 0) s.net (ground arith)) (refl, v)
    | inr (ok l, rest, d) ↦
        rw (listen_dialled id p s l (opened l (record s.net { dials = rest })) (ground arith))
          (listening-Kept s l rest v d)
    | inr (err e, rest, d) ↦
        let w = record s.net { dials = rest } in
        rw (listen_failed id p s e w (ground arith))
          (Kept-net id p k c s w v refl refl refl (rw d at v.undialled).1)
  ]

  module _ (f : Frame) (s : Server) (v : IsSink s id p k c) where
    apply_config-Kept :
        (r : Result InitConfig) → Returns (apply_config id p r s) (λ _ s'. Kept id p k c s s')
    apply_config-Kept (err e) = rw (apply_bad id f s v.unlocked p e) (refl, v)
    apply_config-Kept (ok g) =
        let t = configured s p g.local_addr g.remote_port in
        let (e, w) = configured-Kept s g.local_addr g.remote_port v in
        elim (Bool-cases (positive g.remote_port)) [
          | inr unwanted ↦ rw (apply_stops id f s v.unlocked p g (inl unwanted)) (e, w)
          | inl wanted ↦ elim (Option-cases (s.infos p).public_listener) [
            | inr (l, there) ↦ rw (apply_stops id f s v.unlocked p g (inr (l, there))) (e, w)
            | inl none_yet ↦ rw (apply_listens id f s v.unlocked p g wanted none_yet) (
                Returns_mono (listen_for id p t) _ _ (listen_for-Kept t w)
                  (λ _ s' (e', w'). (e' ∙ e, w')))
          ]
        ]

    handle_init_frame-Kept : Returns (handle_init_frame id f s) (λ _ s'. Kept id p k c s s')
    handle_init_frame-Kept = elim (List-cases s.public_listen_addr) [
      | inl own ↦
          rw (init_own id f s v.unlocked p v.registered own)
            (apply_config-Kept (decode_init_config f.payload))
      | inr global ↦
          rw (init_global id f s v.unlocked p v.registered global) (configured-Kept s [] (pos 0) v)
    ]

    -- What is written to `c`.
    abbrev Gets : Bytes → Server → Type 0
    Gets b s' = (s'.net.sent c ≡ s.net.sent c ++ b) × IsSink s' id p k c

    Kept-Gets : (s' : Server) → Kept id p k c s s' → Gets [] s'
    Kept-Gets s' (e, w) = (e ∙ sym (append-nil (s.net.sent c)), w)

    takes_all : takes s.net c f.payload ≡ true
    takes_all = ground (arith, v.public_open, v.unlimited)

    wrote-Gets : Gets f.payload (record s { net = wrote s.net c f.payload })
    wrote-Gets = (
      ground (arith, v.unlimited),
      record {
        unlocked = v.unlocked;
        registered = v.registered;
        mapped = v.mapped;
        public_open = v.public_open;
        unlimited = ground (arith, v.unlimited);
        once = v.once;
        not_control = v.not_control;
        undialled = v.undialled;
      },
    )

    data_here : f.conn_id ≡ k → Returns (handle_data_frame id f s) (λ _ s'. Gets f.payload s')
    data_here e =
        let there : lookup f.conn_id (s.infos p).conn_map ≡ some c = rw e v.mapped in
        elim (Bool-cases (ltb 0 (length f.payload))) [
          | inr empty ↦
              rw
                (
                  handle_data_frame_idle id f s v.unlocked (inr (p, v.registered, inr empty)),
                  none_carried f.payload empty,
                )
                (Kept-Gets s (refl, v))
          | inl some_bytes ↦
              rw
                (handle_data_frame-delivers id f s p c v.unlocked v.registered there takes_all
                  (ground arith))
                wrote-Gets
        ]

    passes :
        (o : Outcome (Unit {0} × Server))
        → Returns o (λ _ s'. Kept id p k c s s')
        → Returns o (λ _ s'. Gets [] s')
    passes o r = Returns_mono o _ _ r (λ _ s' w. Kept-Gets s' w)

    -- One frame.
    pub handle_frame-Gets :
        (f.conn_id ≢ k) ⊎ (f.frame_type ≢ Proto.close)
        → Returns (handle_frame id f s) (λ _ s'. Gets (carried k f) s')
    unfolding handle_frame
    handle_frame-Gets opens = elim (Bool-cases (f.frame_type == Proto.init)) [
      | inl a ↦
          let nothing : carried k f ≡ [] = ground arith in
          rw (nothing, a, if◌then◌else◌) (passes (handle_init_frame id f s) handle_init_frame-Kept)
      | inr a ↦ elim (Bool-cases (f.frame_type == Proto.data_type)) [
        | inl b ↦ elim (Bool-cases (f.conn_id == k)) [
          | inl here ↦
              let all : carried k f ≡ f.payload = ground arith in
              rw (all, a, b, if◌then◌else◌) (data_here (ground arith))
          | inr there ↦
              let nothing : carried k f ≡ [] = ground arith in
              rw (nothing, a, b, if◌then◌else◌)
                (passes (handle_data_frame id f s) (data_elsewhere id p k c f s v (ground arith)))
        ]
        | inr b ↦
            let nothing : carried k f ≡ [] = ground arith in
            elim (Bool-cases (f.frame_type == Proto.close)) [
              | inl e ↦
                  let ne : f.conn_id ≢ k = λ h. ground (arith, opens) in
                  rw (nothing, a, b, e, if◌then◌else◌)
                    (passes (handle_close_frame id f s) (close_elsewhere id p k c f s v ne))
              | inr e ↦
                  rw (nothing, handle_frame_ignored id f s v.unlocked a b e) (Kept-Gets s (refl, v))
            ]
      ]
    ]

-- The frames `fs` of a client, for any number of its connections and in any order, none of which
-- closes the connection `k`: whatever happens to its other connections, writes that break off and
-- listens that fail included, each of them is handled, and the outside connection `c` of `k` is
-- written exactly the bytes that the DATA frames for `k` carry, in order, and stays open and in
-- the map. It must be in the map under `k` only, be open and take all that is written, and
-- neither be the control connection nor come from a later `Listen`.
pub server_demultiplexes :
    (id : Bytes) (p k c : ℕ) (fs : List Frame) (s : Server)
    → IsSink s id p k c
    → All (λ f. (f.conn_id ≢ k) ⊎ (f.frame_type ≢ Proto.close)) fs
    → Returns
        (handle_all id fs s)
        λ _ s'. (s'.net.sent c ≡ s.net.sent c ++ bytes_for k fs) × IsSink s' id p k c
unfolding handle_all
server_demultiplexes id p k c [] s v opens = (sym (append-nil (s.net.sent c)), v)
server_demultiplexes id p k c (f ∷ fs) s v (o, opens) =
    Returns-chain (handle_frame id f s) _
      (λ _ t. (t.net.sent c ≡ s.net.sent c ++ carried k f) × IsSink t id p k c) _
      (handle_frame-Gets id p k c f s v o)
      λ _ t (e, w).
        Returns_mono (handle_all id fs t) _ _ (server_demultiplexes id p k c fs t w opens)
          λ _ s' (e', w'). (
            e'
                ∙ ap (λ z. z ++ bytes_for k fs) e
                ∙ append_assoc (s.net.sent c) (carried k f) (bytes_for k fs),
            w',
          )
