-- ===== src/Lib.antt =====
-- A reverse tunnel: a server that outside connections reach, and clients behind a firewall that
-- connect to it and carry these connections to local services. This library models the Go program,
-- and proves what its parts do.
--
-- The parts, and the files that model them:
--   * internal/proto/proto.go (Proto, Decimal): frames, as `EncodeFrame` writes them into a buffer and
--     `DecodeFrame` reads them from a stream, and the text of an INIT frame (Proto.Init). Decimal has
--     `strconv.Atoi` and the `%d` of `fmt` as the program uses them, and how long a number gets.
--   * internal/tunnel/server.go (Tunnel.Server): Server.Clients has `registerClient`,
--     `unregisterClient` and `cleanup`; Server.Public has `handlePublicConnection`, its goroutine
--     (`read_public`) and the two loops that accept outside connections; Server.Frames has
--     `handleFramesFromClient` with its handlers, and `handleClientConnection`; Server.Run has the
--     constructors and `Run`.
--   * internal/tunnel/client.go (Tunnel.Client): Client.Frames has `handleConnection` and its handlers;
--     Client.Forward has `forwardLocalToServer`; Client.Run has the constructors, `Run` and `cleanup`.
--   * the two ends together: Tunnel.Relay for a connection that both know, Tunnel.Session from the
--     arrival of an outside connection, Tunnel.Delivery for one connection among all others, under any
--     order of the actions of the end that reads. Tunnel.Framed says when the bytes written to a
--     connection are whole frames, Tunnel.Protocol in which order the server may send them and which
--     bytes they carry for a number, and Tunnel.Saying which frames an action adds to what was written;
--     the modules called Said and Moves follow this through the handlers, those called History through
--     the actions.
--   * the goroutines of one process together: Tunnel.Server.System and Tunnel.Client.System. The modules
--     called Sound say what every action keeps; those called Kept, over Tunnel.Server.Keeping, that an
--     action closes what it takes out of a map.
--   * internal/pqctls/pqc_tls_openssl.go (Pqctls): `verify_pqc_algorithms` and the handshake loop;
--     Pqctls.Context has `create_server_ctx` and `create_client_ctx`, Pqctls.Conn `PQCConn`, and
--     Pqctls.Endpoint `PQCListener`, `PQCDialer` and their constructors.
--   * internal/pqctls/pqc_tls.go (Pqctls.Standard): the configurations for `crypto/tls`.
--   * internal/config/config.go (Config), and cmd/client/main.go and cmd/server/main.go (Cmd).
--
-- How state is modelled. `Server` and `Client` are records with the fields of the Go types. The
-- memory that the server's table points to is the field `infos`, so that handlers that hold a pointer
-- to a `ClientInfo` see each other's changes. Maps are association lists (Prelude.Map). A `go`
-- statement adds to `tasks`; what the goroutine then does is a function of its own. A server function
-- is in the monad `Tunnel.Server.M`, whose outcome is a value and a state, or a wait for a mutex that
-- only this goroutine could release (`blocked`), or the run-time error of an unlock without a lock
-- (`fatal`); `Returns` says that it is the first, and what holds then. The client's mutex guards
-- single reads and writes of one field only, so that its functions are in a state monad. The same
-- holds for `publicListenerMu` of the server, which is left out.
--
-- In Tunnel.Server.System and Tunnel.Client.System the actions of all goroutines are interleaved
-- in any order. An action is what one goroutine does from one wait for a connection or listener
-- to the next, as a whole: between two actions of the server nobody holds the mutex of the table.
-- A client starts with a port and an address whose INIT frame stays below 4 GiB, and its dials
-- return an error or a new connection; a frame may arrive, and the control connection may be
-- lost, at any time. (Tunnel.Server.Frames.Early takes one of them apart, where the order of its
-- steps matters.) The end of the server's `Run` is an action if its cleanup returns, that is if
-- no client is registered then; with a client it waits for ever for the mutex that it holds
-- itself, and what other goroutines can still do after that is not modelled. On the client's side
-- Winding has the rounds in which the goroutines find the context cancelled. Both number the
-- connections and listeners in the order in which they are opened, so that a number is used once.
-- An action of the server adds one at most to each of the counters of 32 bits, which is why
-- statements about it hold for fewer than 2^32 actions.
--
-- OpenSSL is seen through what it answers: whether each call for a context succeeds (`answers`),
-- which files do not exist (`missing`), the attempts of a handshake, and the result of `SSL_read` and
-- `SSL_write` with the code of `SSL_get_error`. Its contexts are the lists of calls made for them.
-- The bound on what `SSL_read` and `SSL_write` return is the one that OpenSSL documents. The mutex of
-- a connection is modelled in Pqctls.Conn as a step relation over single accesses, for any number of
-- goroutines that call its methods; whether its descriptor blocks is a field of the state, since Go
-- decides that (and answers no).
--
-- What a goroutine meets in its rounds (bytes, an error, the end of the context) is a list that it is
-- run over, with nothing in between: theorems about such a run hold as long as no other goroutine
-- changes what it uses. `select` in the client's `handleConnection` may stop before all frames that
-- were read are handled; how many are is the argument `served`.
--
-- The network (Tunnel.Net) is a record: which connections this process has not closed, the bytes
-- that it wrote to each, how many more bytes the other end of each takes before writes fail, and
-- what the next dials and listens return; the address or port that is asked for is not recorded
-- there. A stream that frames are read from is the bytes that will arrive and the error after
-- them (`Proto.Stream`). `os.ReadFile` and `json.Unmarshal` are parameters of Config.
--
-- Fuel: the loops that read frames take one unit for each frame. A frame has at least nine bytes, so
-- one more than the number of bytes is enough; that is proved, and `handle_connection` and the
-- theorem on `handle_client_connection` use this bound. Nothing else has fuel. Numbers of connections
-- and clients wrap round at 2^32 as in the code; theorems on fresh names assume that they have not
-- yet. A port is an `int` of 64 bits.
--
-- Not modelled: `init_openssl`, and the methods that only pass a call on (`Addr`, `DialTLS`; those of
-- `PQCConn` are one step of Pqctls.Conn); internal/tls/pqc_tls.go, which nothing imports, and which has
-- the functions of internal/pqctls/pqc_tls.go word for word; log output and the text of error
-- messages; the parsing of flags; the arrival of signals, which only end the context; and time (the
-- wait of five seconds only ends or is cut short). Tests for nil connections, and the type assertions
-- on values of a `sync.Map` and on an accepted TCP connection, always succeed in the program and are
-- left out.
pub mod Prelude
pub mod Decimal
pub mod Proto
pub mod Tunnel
pub mod Config
pub mod Cmd
pub mod Pqctls
pub mod Examples
