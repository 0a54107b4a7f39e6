-- ===== src/Tunnel/Server/Public/Handle.antt =====
-- What `handlePublicConnection` does with an outside connection.
use ngp_mtls.Prelude.{
  ◌⊎◌, Bool-cases, inl, inr, ℕ, ◌+◌, ◌%◌, ◌^◌, ◌≤◌, ◌<◌, ◌≡◌, ◌≢◌, refl, ◌∙◌, true, false,
  Option-cases, none, some, inl, inr, ◌∷◌, ◌++◌, Bytes, lookup, insert, lookup-insert, nat_eq,
  bytes_eq, arith, update, ◌==◌, if◌then◌else◌, ==_iff,
}
use ngp_mtls.Proto
use ngp_mtls.Proto.{bare_frame}
use ngp_mtls.Proto.RoundTrip.{layout}
use ngp_mtls.Tunnel.Net.{write, takes, write-takes, write_fails}
use ngp_mtls.Tunnel.Server.{Server, ClientInfo, free, Returns, done, public_reader}
use ngp_mtls.Tunnel.Server.Steps.{find_client_lem, send_lem}
use ngp_mtls.Tunnel.Server.Public.{handle_public_connection, accepted_for, announced, next_conn}

-- Without the client the outside connection is closed, and that is all.
pub handle_public_connection_gone :
    (conn : ℕ) (id : Bytes) (s : Server)
    → s.clients_mu ≡ free
    → lookup id s.clients ≡ none
    → Returns (handle_public_connection conn id s) λ _ s'.
      (s'.net.is_open conn ≡ false)
      × (s'.net.sent ≡ s.net.sent)
      × (s'.infos ≡ s.infos)
      × (s'.tasks ≡ s.tasks)
unfolding handle_public_connection
handle_public_connection_gone conn id s h gone = ground (arith, find_client_lem id s h)

-- The keys of a client's map are connection numbers given out so far.
pub record IsCounted (info : ClientInfo) : Type 0 where
  pub given : (k c : ℕ) → lookup k info.conn_map ≡ some c → k ≤ info.next_conn_id

-- The state once the number `k` is given out and the frame was written, or was not.
abbrev pub numbered : Server → ℕ → ℕ → Server
numbered s p k = record s {
  infos = update s.infos p (record (s.infos p) { next_conn_id = k });
  net = (write (s.infos p).conn (layout (bare_frame Proto.new_conn k)) s.net).1;
}

pub accepted_for-announced :
    (conn : ℕ) (id : Bytes) (s : Server) (p : ℕ)
    → (s.infos p).next_conn_id + 1 < 2 ^ 32
    → let k = (s.infos p).next_conn_id + 1 in
      accepted_for conn id p s
      ≡ announced p id k conn
          (write (s.infos p).conn (layout (bare_frame Proto.new_conn k)) s.net).0
          (numbered s p k)
unfolding accepted_for next_conn
accepted_for-announced conn id s p below =
    let e : ((s.infos p).next_conn_id + 1) % 2 ^ 32 ≡ (s.infos p).next_conn_id + 1 = omega arith in
    rw e (
      ground (
        arith,
        send_lem (s.infos p).conn (bare_frame Proto.new_conn ((s.infos p).next_conn_id + 1))
            (record s {
              infos =
                  update s.infos p
                    (record (s.infos p) { next_conn_id = (s.infos p).next_conn_id + 1 });
            }),
      ))

pub handle_public_connection-accepted_for :
    (conn : ℕ) (id : Bytes) (s : Server) (p : ℕ)
    → s.clients_mu ≡ free
    → lookup id s.clients ≡ some p
    → handle_public_connection conn id s ≡ accepted_for conn id p s
unfolding handle_public_connection
handle_public_connection-accepted_for conn id s p h found = ground (arith, find_client_lem id s h)

-- The entry is made, and the reading goroutine started.
pub announced-stored :
    (p : ℕ) (id : Bytes) (k conn : ℕ) (s : Server)
    → announced p id k conn none s
      ≡ done (
        tt,
        record s {
          infos =
              update s.infos p
                (record (s.infos p) { conn_map = insert k conn (s.infos p).conn_map });
          tasks = public_reader p id k conn ∷ s.tasks;
        },
      )
unfolding announced
announced-stored p id k conn s = ground arith

-- A number above those given out is not in the map.
pub IsCounted-new :
    (info : ClientInfo) (k : ℕ)
    → IsCounted info
    → info.next_conn_id < k
    → lookup k info.conn_map ≡ none
IsCounted-new info k v above = elim (Option-cases (lookup k info.conn_map)) [
  | inl new ↦ new
  | inr (c, old) ↦ absurd (omega (arith, v.given k c old))
]

pub IsCounted-count :
    (info : ClientInfo)
    → IsCounted info
    → IsCounted (record info { next_conn_id = info.next_conn_id + 1 })
IsCounted-count info v = record { given = λ j c h. omega (arith, v.given j c h) }

pub IsCounted-store :
    (info : ClientInfo) (conn : ℕ)
    → IsCounted info
    → let k = info.next_conn_id + 1 in
      IsCounted (record info { next_conn_id = k; conn_map = insert k conn info.conn_map })
IsCounted-store info conn v = record {
  given = λ j c h.
      ground (arith, lookup-insert (info.next_conn_id + 1) j conn info.conn_map, v.given j c);
}

-- An outside connection for a registered client, before the counter of 32 bits wraps round: it gets a
-- number that no connection in the map has. If the control connection takes the NEW_CONN frame, that
-- frame with that number is what it was sent, the entry is made, every other entry stays, and the
-- reading goroutine is started; if not, the outside connection is closed, and the map is as before.
-- Either way the numbering of the map stays sound.
pub handle_public_connection_lem :
    (conn : ℕ) (id : Bytes) (s : Server) (p : ℕ)
    → s.clients_mu ≡ free
    → lookup id s.clients ≡ some p
    → (s.infos p).next_conn_id + 1 < 2 ^ 32
    → conn ≢ (s.infos p).conn
    → IsCounted (s.infos p)
    → let k = (s.infos p).next_conn_id + 1 in
      let notice = layout (bare_frame Proto.new_conn k) in
      (lookup k (s.infos p).conn_map ≡ none)
      × (((takes s.net (s.infos p).conn notice ≡ true)
            × Returns (handle_public_connection conn id s) λ _ s'.
              (s'.net.sent (s.infos p).conn ≡ s.net.sent (s.infos p).conn ++ notice)
              × ((j : ℕ)
                  → lookup j (s'.infos p).conn_map
                    ≡ (if k == j then some conn else lookup j (s.infos p).conn_map))
              × (s'.tasks ≡ public_reader p id k conn ∷ s.tasks)
              × IsCounted (s'.infos p))
          ⊎ ((takes s.net (s.infos p).conn notice ≡ false)
              × Returns (handle_public_connection conn id s) λ _ s'.
                (s'.net.is_open conn ≡ false)
                × ((s'.infos p).conn_map ≡ (s.infos p).conn_map)
                × (s'.tasks ≡ s.tasks)
                × IsCounted (s'.infos p)))
unfolding announced
handle_public_connection_lem conn id s p h found below ne v =
    let k = (s.infos p).next_conn_id + 1 in
    let new = IsCounted-new (s.infos p) k v (omega arith) in
    let run =
      handle_public_connection-accepted_for conn id s p h found
      ∙ accepted_for-announced conn id s p below in
    (
      new,
      elim (Bool-cases (takes s.net (s.infos p).conn notice)) [
        | inl t ↦ inl (t, rw run (sent_notice t))
        | inr t ↦ inr (t, rw run (unsent_notice t))
      ],
    )
  where
    k : ℕ
    k = (s.infos p).next_conn_id + 1

    same : (p == p) ≡ true
    same = (==_iff p p).1 refl

    notice : Bytes
    notice = layout (bare_frame Proto.new_conn k)

    sent_notice :
        takes s.net (s.infos p).conn notice ≡ true
        → Returns
            (announced p id k conn (write (s.infos p).conn notice s.net).0 (numbered s p k))
            λ _ s'.
              (s'.net.sent (s.infos p).conn ≡ s.net.sent (s.infos p).conn ++ notice)
              × ((j : ℕ)
                  → lookup j (s'.infos p).conn_map
                    ≡ (if k == j then some conn else lookup j (s.infos p).conn_map))
              × (s'.tasks ≡ public_reader p id k conn ∷ s.tasks)
              × IsCounted (s'.infos p)
    sent_notice t =
        let (no_error, appended) = write-takes s.net (s.infos p).conn notice t in
        rw (no_error, same)
          (
            appended,
            λ j. rw (lookup-insert k j conn (s.infos p).conn_map),
            refl,
            IsCounted-store (s.infos p) conn v,
          )

    unsent_notice :
        takes s.net (s.infos p).conn notice ≡ false
        → Returns
            (announced p id k conn (write (s.infos p).conn notice s.net).0 (numbered s p k))
            λ _ s'.
              (s'.net.is_open conn ≡ false)
              × ((s'.infos p).conn_map ≡ (s.infos p).conn_map)
              × (s'.tasks ≡ s.tasks)
              × IsCounted (s'.infos p)
    unsent_notice t =
        let (e, failed) = write_fails s.net (s.infos p).conn notice t in
        rw (failed, same) (ground arith, refl, refl, IsCounted-count (s.infos p) v)
