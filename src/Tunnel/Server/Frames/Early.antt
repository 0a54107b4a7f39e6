-- ===== src/Tunnel/Server/Frames/Early.antt =====
-- A CLOSE frame that is handled between the NEW_CONN frame and the entry for it.
use ngp_mtls.Prelude.{
  ℕ, ◌+◌, ◌^◌, ◌<◌, ◌≡◌, ap, ◌∙◌, refl, true, none, some, ◌∷◌, Bytes, lookup, delete, lookup-insert,
  nat_eq, bytes_eq, update, arith,
}
use ngp_mtls.Proto
use ngp_mtls.Proto.{bare_frame}
use ngp_mtls.Proto.RoundTrip.{layout}
use ngp_mtls.Tunnel.Net.{Net, takes, write, write-takes}
use ngp_mtls.Tunnel.Server.{Server, free, done, Returns, ◌>>◌, public_reader}
use ngp_mtls.Tunnel.Server.Steps.{find_client_lem}
use ngp_mtls.Tunnel.Server.Public.{accepted_for, announced}
use ngp_mtls.Tunnel.Server.Public.Handle.{
  IsCounted, IsCounted-new, numbered, accepted_for-announced, announced-stored,
}
use ngp_mtls.Tunnel.Server.Frames.{handle_close_frame}

abbrev unlisted : Server → ℕ → ℕ → Server
unlisted s p k = record s {
  infos = update s.infos p (record (s.infos p) { conn_map = delete k (s.infos p).conn_map });
}

handle_close_frame-unlisted :
    (id : Bytes) (k p : ℕ) (s : Server)
    → s.clients_mu ≡ free
    → lookup id s.clients ≡ some p
    → lookup k (s.infos p).conn_map ≡ none
    → handle_close_frame id (bare_frame Proto.close k) s ≡ done (tt, unlisted s p k)
unfolding handle_close_frame
handle_close_frame-unlisted id k p s h found gone = ground (arith, find_client_lem id s h)

write_open : (c d : ℕ) (b : Bytes) (w : Net) → (write c b w).1.is_open d ≡ w.is_open d
unfolding write
write_open c d b w = ground arith

-- While the server accepts an outside connection for a registered client, before the numbers of the
-- client's connections wrap round: when the client's CLOSE frame for the new number is handled
-- after the NEW_CONN frame was written and before the entry is made, it is lost. The entry is there
-- afterwards, the connection is open if it was, and the goroutine that reads it is started.
pub early_close :
    (conn : ℕ) (id : Bytes) (s : Server) (p : ℕ)
    → s.clients_mu ≡ free
    → lookup id s.clients ≡ some p
    → (s.infos p).next_conn_id + 1 < 2 ^ 32
    → IsCounted (s.infos p)
    → takes s.net
        (s.infos p).conn
        (layout (bare_frame Proto.new_conn ((s.infos p).next_conn_id + 1)))
      ≡ true
    → let k = (s.infos p).next_conn_id + 1 in
      (accepted_for conn id p s ≡ announced p id k conn none (numbered s p k))
      × Returns
          ((do handle_close_frame id (bare_frame Proto.close k); announced p id k conn none)
            (numbered s p k))
          λ _ s'.
            (lookup k (s'.infos p).conn_map ≡ some conn)
            × (s'.net.is_open conn ≡ s.net.is_open conn)
            × (s'.tasks ≡ public_reader p id k conn ∷ s.tasks)
early_close conn id s p h found below v takes_it =
    let k = (s.infos p).next_conn_id + 1 in
    let b = layout (bare_frame Proto.new_conn k) in
    let new : lookup k (s.infos p).conn_map ≡ none = IsCounted-new (s.infos p) k v (omega arith) in
    let unknown : lookup k ((numbered s p k).infos p).conn_map ≡ none = ground (arith, new) in
    (
      accepted_for-announced conn id s p below
          ∙ ap (λ e. announced p id k conn e (numbered s p k))
              (write-takes s.net (s.infos p).conn b takes_it).0,
      rw
          (
            handle_close_frame-unlisted id k p (numbered s p k) h found unknown,
            ◌>>◌,
            announced-stored p id k conn (unlisted (numbered s p k) p k),
          )
          (
            ground (arith, lookup-insert k k conn (delete k (s.infos p).conn_map)),
            write_open (s.infos p).conn conn b s.net,
            refl,
          ),
    )
