-- ===== src/Tunnel/Server/Frames/Sink.antt =====
-- Frames for other connections leave an outside connection alone.
use ngp_mtls.Prelude.{
  ℕ, ◌≡◌, ◌≢◌, refl, ap, ◌∙◌, inl, inr, Bool-cases, true, Option-cases, none, some, List, All,
  Bytes, ok, length, ltb, lookup, delete, lookup-delete, update, nat_eq, bytes_eq, arith,
}
use ngp_mtls.Proto
use ngp_mtls.Proto.{Frame, bare_frame}
use ngp_mtls.Proto.RoundTrip.{layout}
use ngp_mtls.Tunnel.Net.{Net, write, wrote, close, takes}
use ngp_mtls.Tunnel.Server.{Server, ClientInfo, Task, free, Returns, Returns_mono, send_close_frame}
use ngp_mtls.Tunnel.Server.Steps.{send_close_frame-sent}
use ngp_mtls.Tunnel.Server.Frames.{handle_data_frame, handle_close_frame}
use ngp_mtls.Tunnel.Server.Frames.Handle.{
  handle_data_frame-delivers, handle_data_frame-fails, dropped,
}
use ngp_mtls.Tunnel.Server.Frames.Cases.{handle_data_frame_idle, close_unmapped, close_mapped}

-- The outside connection `c` of the client `id` at `p` is in its map under `k` only, is open and
-- takes all that is written to it, and is neither its control connection nor a listener that is
-- still to come.
pub record IsSink (s : Server) (id : Bytes) (p k c : ℕ) : Type 0 where
  pub unlocked : s.clients_mu ≡ free
  pub registered : lookup id s.clients ≡ some p
  pub mapped : lookup k (s.infos p).conn_map ≡ some c
  pub public_open : s.net.is_open c ≡ true
  pub unlimited : s.net.limit c ≡ none
  pub once : (i : ℕ) → lookup i (s.infos p).conn_map ≡ some c → i ≡ k
  pub not_control : (s.infos p).conn ≢ c
  pub undialled : All (λ r. r ≢ ok c) s.net.dials

module _ (id : Bytes) (p k c : ℕ) where
  -- Nothing happens to `c`.
  abbrev pub Kept : Server → Server → Type 0
  Kept s s' = (s'.net.sent c ≡ s.net.sent c) × IsSink s' id p k c

  pub Kept-net :
      (s : Server) (w : Net)
      → IsSink s id p k c
      → w.is_open c ≡ s.net.is_open c
      → w.limit c ≡ s.net.limit c
      → w.sent c ≡ s.net.sent c
      → All (λ r. r ≢ ok c) w.dials
      → Kept s (record s { net = w })
  Kept-net s w v opens limits sends dials = (
    sends,
    record {
      unlocked = v.unlocked;
      registered = v.registered;
      mapped = v.mapped;
      public_open = opens ∙ v.public_open;
      unlimited = limits ∙ v.unlimited;
      once = v.once;
      not_control = v.not_control;
      undialled = dials;
    },
  )

  Kept-write :
      (s : Server) (d : ℕ) (b : Bytes)
      → IsSink s id p k c
      → d ≢ c
      → Kept s (record s { net = (write d b s.net).1 })
  unfolding write
  Kept-write s d b v ne =
      Kept-net s (write d b s.net).1 v (ground arith) (ground arith) (ground arith)
        (ground (arith, v.undialled))

  -- The record of the client changes; `c` keeps its entry, and gets no other.
  pub Kept-info :
      (s : Server) (info : ClientInfo)
      → IsSink s id p k c
      → info.conn ≡ (s.infos p).conn
      → lookup k info.conn_map ≡ some c
      → ((i : ℕ) → lookup i info.conn_map ≡ some c → i ≡ k)
      → Kept s (record s { infos = update s.infos p info })
  Kept-info s info v conn there once = (
    refl,
    record {
      unlocked = v.unlocked;
      registered = v.registered;
      mapped = ground (arith, there);
      public_open = v.public_open;
      unlimited = v.unlimited;
      once = λ i h. once i (ground (arith, h));
      not_control = λ e. v.not_control (ground (arith, conn, e));
      undialled = v.undialled;
    },
  )

  pub Kept-tasks :
      (s : Server) (ts : List Task) → IsSink s id p k c → IsSink (record s { tasks = ts }) id p k c
  Kept-tasks s ts v = record {
    unlocked = v.unlocked;
    registered = v.registered;
    mapped = v.mapped;
    public_open = v.public_open;
    unlimited = v.unlimited;
    once = v.once;
    not_control = v.not_control;
    undialled = v.undialled;
  }

  Kept-delete :
      (s : Server) (j : ℕ)
      → IsSink s id p k c
      → j ≢ k
      → Kept s (record s {
        infos = update s.infos p (record (s.infos p) { conn_map = delete j (s.infos p).conn_map });
      })
  Kept-delete s j v ne =
      Kept-info s (record (s.infos p) { conn_map = delete j (s.infos p).conn_map }) v refl
        (ground (arith, lookup-delete j k (s.infos p).conn_map, v.mapped))
        (λ i h. v.once i (ground (arith, lookup-delete j i (s.infos p).conn_map)))

  Kept-send :
      (s : Server) (j : ℕ)
      → IsSink s id p k c
      → Returns (send_close_frame id j s) (λ _ s'. Kept s s')
  Kept-send s j v =
      rw (send_close_frame-sent id j s p v.unlocked v.registered)
        (Kept-write s (s.infos p).conn (layout (bare_frame Proto.close j)) v v.not_control)

  module _ (f : Frame) (s : Server) (v : IsSink s id p k c) where
    other_conn : (d : ℕ) → f.conn_id ≢ k → lookup f.conn_id (s.infos p).conn_map ≡ some d → d ≢ c
    other_conn d ne there e = ne (v.once f.conn_id (there ∙ ap some e))

    dropped-Kept :
        (d : ℕ) (there : lookup f.conn_id (s.infos p).conn_map ≡ some d)
        → f.conn_id ≢ k
        → Kept s (dropped id f s p d v.unlocked v.registered there)
    dropped-Kept d there ne =
        let ne' = other_conn d ne there in
        let (e, v') = Kept-write s d f.payload v ne' in
        let t = record s { net = (write d f.payload s.net).1 } in
        let (e', v'') = Kept-net t (close d t.net) v' (ground arith) refl refl v'.undialled in
        let (e'', w) = Kept-delete _ f.conn_id v'' ne in (e'' ∙ e' ∙ e, w)

    pub data_elsewhere : f.conn_id ≢ k → Returns (handle_data_frame id f s) (λ _ s'. Kept s s')
    data_elsewhere ne = elim (Option-cases (lookup f.conn_id (s.infos p).conn_map)) [
      | inl gone ↦
          rw (handle_data_frame_idle id f s v.unlocked (inr (p, v.registered, inl gone))) (refl, v)
      | inr (d, there) ↦ elim (Bool-cases (ltb 0 (length f.payload))) [
        | inr empty ↦
            rw (handle_data_frame_idle id f s v.unlocked (inr (p, v.registered, inr empty)))
              (refl, v)
        | inl some_bytes ↦ elim (Bool-cases (takes s.net d f.payload)) [
          | inl t ↦
              rw
                (handle_data_frame-delivers id f s p d v.unlocked v.registered there t
                  (ground arith))
                (Kept-net s (wrote s.net d f.payload) v refl (ground (arith, other_conn d ne there))
                  (ground (arith, other_conn d ne there)) v.undialled)
          | inr t ↦
              let (e, w) = dropped-Kept d there ne in
              let u = dropped id f s p d v.unlocked v.registered there in
              rw (handle_data_frame-fails id f s p d v.unlocked v.registered there t (ground arith))
                (Returns_mono (send_close_frame id f.conn_id u) _ _ (Kept-send u f.conn_id w)
                  (λ _ s' (e', w'). (e' ∙ e, w')))
        ]
      ]
    ]

    pub close_elsewhere : f.conn_id ≢ k → Returns (handle_close_frame id f s) (λ _ s'. Kept s s')
    close_elsewhere ne = elim (Option-cases (lookup f.conn_id (s.infos p).conn_map)) [
      | inl gone ↦
          rw (close_unmapped id f s v.unlocked p v.registered gone) (Kept-delete s f.conn_id v ne)
      | inr (d, there) ↦
          let (e, w) = Kept-delete s f.conn_id v ne in
          rw (close_mapped id f s v.unlocked p d v.registered there) (
            Kept-net _ (close d s.net) w (ground (arith, other_conn d ne there)) refl refl
              v.undialled)
    ]
