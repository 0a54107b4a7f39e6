-- ===== src/Tunnel/Server/Steps.antt =====
-- The steps that the server's handlers share, run from a state in which nobody holds the mutex.
use ngp_mtls.Prelude.{ℕ, ◌≡◌, none, some, Bytes, lookup, nat_eq, bytes_eq, arith}
use ngp_mtls.Proto
use ngp_mtls.Proto.{bare_frame, Frame, encode_frame}
use ngp_mtls.Proto.RoundTrip.{layout, encode_frame-layout}
use ngp_mtls.Tunnel.Net.{write}
use ngp_mtls.Tunnel.Server.{
  Server, free, done, ◌>>=◌, find_client, find_client_locked, lock, unlock, rlock, runlock, send,
  write_conn, send_close_frame,
}

pub find_client_lem :
    (id : Bytes) (s : Server)
    → s.clients_mu ≡ free
    → find_client id s ≡ done (lookup id s.clients, s)
unfolding find_client rlock runlock
find_client_lem id s h = ground arith

pub find_client_locked_lem :
    (id : Bytes) (s : Server)
    → s.clients_mu ≡ free
    → find_client_locked id s ≡ done (lookup id s.clients, s)
unfolding find_client_locked lock unlock
find_client_locked_lem id s h = ground arith

-- A frame is encoded and written in one piece.
pub send_lem :
    (c : ℕ) (f : Frame) (s : Server)
    → send c f s
      ≡ done ((write c (layout f) s.net).0, record s { net = (write c (layout f) s.net).1 })
unfolding send write_conn
send_lem c f s = rw (encode_frame-layout f, send)

pub send_close_frame-sent :
    (id : Bytes) (k : ℕ) (s : Server) (p : ℕ)
    → s.clients_mu ≡ free
    → lookup id s.clients ≡ some p
    → send_close_frame id k s
      ≡ done (
        tt,
        record s { net = (write (s.infos p).conn (layout (bare_frame Proto.close k)) s.net).1 },
      )
unfolding send_close_frame
send_close_frame-sent id k s p h found =
    ground (arith, find_client_lem id s h, send_lem (s.infos p).conn (bare_frame Proto.close k) s)

pub send_close_frame_gone :
    (id : Bytes) (k : ℕ) (s : Server)
    → s.clients_mu ≡ free
    → lookup id s.clients ≡ none
    → send_close_frame id k s ≡ done (tt, s)
unfolding send_close_frame
send_close_frame_gone id k s h found = rw (find_client_lem id s h, found, ◌>>=◌)
