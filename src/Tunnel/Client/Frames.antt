-- ===== src/Tunnel/Client/Frames.antt =====
-- internal/tunnel/client.go: the frames that come from the server.
pub mod Handle
pub mod Relay
pub mod Serve
pub mod Dialled
pub mod Cases
pub mod Sound
pub mod Said
pub mod Sink
pub mod Demux
pub mod Shut
use ngp_mtls.Prelude.{
  ℕ, zero, suc, Bool, true, false, Option, none, some, List, [], ◌∷◌, length, take, ltb, ◌==◌,
  if◌then◌else◌, lookup, nat_eq, Error, cancelled, Result, ok, err,
}
use ngp_mtls.Proto
use ngp_mtls.Proto.{Frame, Stream, decode_frame}
use ngp_mtls.Tunnel.Net.{dial}
use ngp_mtls.Tunnel.Client.{
  Client, M, pure, ◌>>=◌, ◌>>◌, modify, gets, close_conn, store_conn, delete_conn, go_forward,
  write_conn, send_close_frame,
}

-- `net.DialTimeout` to the local service.
pub dial_local : M (Result ℕ)
dial_local s = let (r, w) = dial s.net in (r, record s { net = w })

-- `handleNewConn`.
pub handle_new_conn : Frame → M (Option Error)
handle_new_conn f = do
  r ← dial_local
  elim r [
    | err e ↦ do send_close_frame f.conn_id; pure (some e)
    | ok local_conn ↦ do store_conn f.conn_id local_conn; go_forward f.conn_id local_conn; pure none
  ]

-- A write to the local connection, and what follows if it fails.
pub deliver : ℕ → Frame → M (Option Error)
deliver local_conn f = do
  r ← write_conn local_conn f.payload
  elim r [
    | none ↦ pure none
    | some e ↦ do
      close_conn local_conn
      delete_conn f.conn_id
      send_close_frame f.conn_id
      pure (some e)
  ]

-- `handleDataFrame`.
pub handle_data_frame : Frame → M (Option Error)
handle_data_frame f = do
  found ← gets (λ s. lookup f.conn_id s.conn_map)
  elim found [
    | none ↦ pure none
    | some local_conn ↦ if ltb 0 (length f.payload) then deliver local_conn f else pure none
  ]

-- `handleCloseFrame`.
pub handle_close_frame : Frame → M (Option Error)
handle_close_frame f = do
  found ← gets (λ s. lookup f.conn_id s.conn_map)
  delete_conn f.conn_id
  elim found [
    | none ↦ pure none
    | some local_conn ↦ do close_conn local_conn; send_close_frame f.conn_id; pure none
  ]

-- `handleFrame`.
pub handle_frame : Frame → M (Option Error)
handle_frame f =
    if f.frame_type == Proto.new_conn
    then handle_new_conn f
    else if f.frame_type == Proto.data_type
    then handle_data_frame f
    else if f.frame_type == Proto.close
    then handle_close_frame f
    else pure none

-- The main loop of `handleConnection` over the frames that it takes from the channel; an error of
-- `handleFrame` is only logged.
pub handle_all : List Frame → M (Unit {0})
handle_all [] = pure tt
handle_all (f ∷ fs) = do _ ← handle_frame f; handle_all fs

-- The goroutine of `handleConnection`: the frames that it puts into the channel, and the error that
-- ends it; `none` if the fuel ran out first.
pub read_frames : ℕ → Stream → List Frame × Option Error
read_frames zero r = ([], none)
read_frames (suc n) r = elim (decode_frame r) [
  | err e ↦ ([], some e)
  | ok (f, rest) ↦ let (fs, e) = read_frames n rest in (f ∷ fs, e)
]

-- `handleConnection` when the server's bytes are `r`. `select` may take the error, or the end of the
-- context, while frames are still in the channel: `served` is the number of frames it took before,
-- and `stop` says that it was the context.
pub handle_connection : ℕ → Bool → Stream → M (Option Error)
handle_connection served stop r = do
  let (frames, e) = read_frames (suc (length r.bytes)) r
  handle_all (take served frames)
  pure (if stop then some cancelled else e)
