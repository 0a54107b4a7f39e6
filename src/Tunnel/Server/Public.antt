-- ===== src/Tunnel/Server/Public.antt =====
-- internal/tunnel/server.go: outside connections. `handlePublicConnection` with the goroutine that
-- it starts, and the two loops that accept outside connections.
pub mod Handle
pub mod Reader
pub mod Accept
pub mod Sound
pub mod Said
pub mod Kept
use ngp_mtls.Prelude.{
  ℕ, zero, suc, ◌+◌, ◌%◌, ◌^◌, Bool, true, false, Option, none, some, List, [], ◌∷◌, Bytes, length,
  ltb, if◌then◌else◌, update, lookup, nat_eq, Error, closed_conn, Result, ok, err,
}
use ngp_mtls.Proto
use ngp_mtls.Proto.{Frame, bare_frame, data_frame}
use ngp_mtls.Tunnel.Net.{opened}
use ngp_mtls.Tunnel.Server.{
  ClientInfo, Server, Outcome, done, M, pure, ◌>>=◌, ◌>>◌, modify, gets, close_conn, store_conn,
  delete_conn, get_info, set_info, find_client, send, send_close_frame, go, public_reader, rlock,
  runlock,
}

-- `atomic.AddUint32(&clientInfo.NextConnID, 1)`.
next_conn : ℕ → M ℕ
next_conn p s =
    let n = ((s.infos p).next_conn_id + 1) % 2 ^ 32 in
    done (n, record s { infos = update s.infos p (record (s.infos p) { next_conn_id = n }) })

-- After the NEW_CONN frame was sent, or could not be.
pub announced : ℕ → Bytes → ℕ → ℕ → Option Error → M (Unit {0})
announced p id conn_id conn (some e) = close_conn conn
announced p id conn_id conn none = do
  store_conn p conn_id conn
  go (public_reader p id conn_id conn)

pub accepted_for : ℕ → Bytes → ℕ → M (Unit {0})
accepted_for conn id p = do
  conn_id ← next_conn p
  info ← get_info p
  e ← send info.conn (bare_frame Proto.new_conn conn_id)
  announced p id conn_id conn e

-- `handlePublicConnection`, up to the start of its goroutine.
pub handle_public_connection : ℕ → Bytes → M (Unit {0})
handle_public_connection conn id = do
  found ← find_client id
  elim found [ none ↦ close_conn conn | some p ↦ accepted_for conn id p ]

-- What one round of the reading goroutine meets: the context is cancelled, or `Read` returns
-- bytes, the end of the file, "use of closed network connection", or another error.
pub data Poll : Type 0 where
  ctx_done : Poll
  got : Bytes → Poll
  got_eof got_closed got_error : Poll

-- Whether the connection is still in the map.
abbrev pub is_mapped : ℕ → ℕ → M Bool
is_mapped p k s = elim (lookup k (s.infos p).conn_map) [
  | none ↦ done (false, s)
  | some c ↦ done (true, s)
]

-- The map is looked at again before the DATA frame is sent; the loop goes on if that went well.
forward : ℕ → ℕ → Bytes → M Bool
forward p conn_id b = do
  mapped ← is_mapped p conn_id
  if mapped
      then (do
        info ← get_info p
        e ← send info.conn (data_frame conn_id b)
        pure (elim e [ none ↦ true | some _ ↦ false ]))
      else pure false

pub after_read : ℕ → Bytes → ℕ → Poll → M Bool
after_read p id conn_id ctx_done = pure false
after_read p id conn_id (got b) = if ltb 0 (length b) then forward p conn_id b else pure true
after_read p id conn_id got_eof = do send_close_frame id conn_id; pure false
after_read p id conn_id got_closed = pure false
after_read p id conn_id got_error = do send_close_frame id conn_id; pure false

-- One round of the loop; `true` if there is a next one.
pub reader_round : ℕ → Bytes → ℕ → Poll → M Bool
reader_round p id conn_id ctx_done = pure false
reader_round p id conn_id poll = do
  mapped ← is_mapped p conn_id
  if mapped then after_read p id conn_id poll else pure false

-- From one `Read` of the goroutine to the next, among other goroutines. The map is looked at before
-- the read; `seen` says that this was while the entry was there, so that it is not looked at now.
pub reader_turn : Bool → ℕ → Bytes → ℕ → Poll → M Bool
reader_turn true p id conn_id poll = after_read p id conn_id poll
reader_turn false p id conn_id poll = reader_round p id conn_id poll

-- The deferred function of the goroutine.
pub reader_exit : ℕ → ℕ → ℕ → M (Unit {0})
reader_exit p conn_id conn = do
  mapped ← is_mapped p conn_id
  if mapped then (do close_conn conn; delete_conn p conn_id) else pure tt

-- The goroutine over what its rounds meet, with nothing in between; `false` if it has ended, and
-- `true` if it waits for more.
pub read_public : ℕ → Bytes → ℕ → ℕ → List Poll → M Bool
read_public p id conn_id conn [] = pure true
read_public p id conn_id conn (poll ∷ polls) = do
  again ← reader_round p id conn_id poll
  if again then read_public p id conn_id conn polls else (do reader_exit p conn_id conn; pure false)

-- `listener.Accept()` when `arrival` is next in its queue: a closed listener returns an error.
unfoldable pub accept : ℕ → Result ℕ → M (Result ℕ)
accept l arrival s =
    if s.net.is_open l
    then elim arrival [
      | ok c ↦ done (ok c, record s { net = opened c s.net })
      | err e ↦ done (err e, s)
    ]
    else done (err closed_conn, s)

-- `acceptPublicConnectionsForClient` over what its rounds meet: an arrival, and whether the context
-- is cancelled by then. `false` if it has returned, and `true` if it goes on.
pub accept_for_client : Bytes → ℕ → List (Result ℕ × Bool) → M Bool
accept_for_client id l [] = pure true
accept_for_client id l ((arrival, cancelled) ∷ rest) = do
  r ← accept l arrival
  elim r [
    | ok c ↦ do handle_public_connection c id; accept_for_client id l rest
    | err e ↦ if cancelled then pure false else accept_for_client id l rest
  ]

-- `for id := range s.clients`, left after the first one: the runtime chooses where the iteration
-- over the map starts. The empty name stands for none.
pub first_client : ℕ → List (Bytes × ℕ) → Bytes
first_client start [] = []
first_client start ((id, p) ∷ []) = id
first_client zero ((id, p) ∷ rest) = id
first_client (suc n) ((id, p) ∷ rest) = first_client n rest

choose_client : ℕ → M Bytes
choose_client start = do
  rlock
  target ← gets (λ s. first_client start s.clients)
  runlock
  pure target

-- One arrival at the global listener.
pub route_public : ℕ → ℕ → M (Unit {0})
route_public start conn = do
  target ← choose_client start
  elim target [ [] ↦ close_conn conn | b ∷ bs ↦ handle_public_connection conn (b ∷ bs) ]

-- `acceptPublicConnections`.
pub accept_public : ℕ → List (Result ℕ × ℕ × Bool) → M Bool
accept_public l [] = pure true
accept_public l ((arrival, start, cancelled) ∷ rest) = do
  r ← accept l arrival
  elim r [
    | ok c ↦ do route_public start c; accept_public l rest
    | err e ↦ if cancelled then pure false else accept_public l rest
  ]
