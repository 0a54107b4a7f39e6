-- ===== src/Tunnel/Server.antt =====
-- internal/tunnel/server.go: the server's state and its operations. A goroutine's code between two
-- waits is a function in the monad `M`; the goroutines that it starts are listed in `tasks`.
pub mod Clients
pub mod Public
pub mod Frames
pub mod Run
pub mod Steps
pub mod Sound
pub mod Moves
pub mod Keeping
pub mod System
use ngp_mtls.Prelude.{
  ℕ, zero, suc, ◌+◌, ◌%◌, ◌^◌, ◌≡◌, refl, Bool, true, false, ◌&&◌, Option, none, some, List, [],
  ◌∷◌, ◌++◌, Bytes, codes, length, ltb, ◌==◌, if◌then◌else◌, update, lookup, insert, delete, nat_eq,
  bytes_eq, Error, eof, Result, ok, err, ℤ, pos, positive,
}
use ngp_mtls.Decimal.{format_ℕ}
use ngp_mtls.Proto.{Frame, bare_frame, encode_frame, Stream, decode_frame}
use ngp_mtls.Proto
use ngp_mtls.Proto.Init.{decode_init_config}
use ngp_mtls.Tunnel.Net.{Net, write, close, dial}

-- `ClientInfo`. Its connection is the one that `Accept` returned, so it is never nil.
pub record ClientInfo : Type 0 where
  pub id : Bytes
  pub conn : ℕ
  pub conn_map : List (ℕ × ℕ)
  pub next_conn_id : ℕ
  pub local_addr : Bytes
  pub remote_port : ℤ
  pub public_listener : Option ℕ

-- `sync.RWMutex`: free, held by n + 1 readers, or held by a writer.
pub data RwMutex : Type 0 where
  free : RwMutex
  reading : ℕ → RwMutex
  writing : RwMutex

-- A `go` statement: the frames of a client, the bytes of an outside connection, the outside
-- connections of a client's listener or of the global one, or the clients.
pub data Task : Type 0 where
  client_frames : Bytes → ℕ → Task
  public_reader : ℕ → Bytes → ℕ → ℕ → Task
  client_listener : Bytes → ℕ → Task
  global_listener : ℕ → Task
  control_listener : ℕ → Task

-- `Server`, and the memory that it points to: `infos` holds the `ClientInfo` at each pointer, and
-- `fresh` is the next pointer.
pub record Server : Type 0 where
  pub control_listen_addr : Bytes
  pub public_listen_addr : Bytes
  pub use_tls : Bool
  pub tls_cert_file : Bytes
  pub tls_key_file : Bytes
  pub tls_ca_file : Bytes
  pub clients : List (Bytes × ℕ)
  pub clients_mu : RwMutex
  pub public_listener : Option ℕ
  pub next_client_id : ℕ
  pub infos : ℕ → ClientInfo
  pub fresh : ℕ
  pub net : Net
  pub tasks : List Task

-- A stretch of code ends, waits for a mutex that this very goroutine would have to release, or
-- stops the program (a release of a mutex that is not held).
pub data Outcome {ℓ} (A : Type ℓ) : Type ℓ where
  done : A → Outcome A
  blocked : Outcome A
  fatal : Outcome A

abbrev pub M : Type 0 → Type 0
M A = Server → Outcome (A × Server)

abbrev pub pure : {A : Type 0} → A → M A
pure a s = done (a, s)

-- What follows a stretch of code.
abbrev pub chain : {A B : Type 0} → Outcome (A × Server) → (A → M B) → Outcome (B × Server)
chain (done (a, s)) f = f a s
chain blocked f = blocked
chain fatal f = fatal

infixl 5 ◌>>=◌ ◌>>◌
abbrev pub ◌>>=◌ : {A B : Type 0} → M A → (A → M B) → M B
◌>>=◌ m f s = chain (m s) f

abbrev pub ◌>>◌ : {B : Type 0} → M (Unit {0}) → M B → M B
m >> k = m >>= λ _. k

-- An early return on a missing value.
abbrev pub when_some : {A : Type 0} → Option A → (A → M (Unit {0})) → M (Unit {0})
when_some none f = pure tt
when_some (some a) f = f a

abbrev pub modify : (Server → Server) → M (Unit {0})
modify f s = done (tt, f s)

abbrev pub gets : {A : Type 0} → (Server → A) → M A
gets f s = done (f s, s)

abbrev pub set_info : ℕ → ClientInfo → M (Unit {0})
set_info p info = modify λ s. record s { infos = update s.infos p info }

abbrev pub close_conn : ℕ → M (Unit {0})
close_conn c = modify λ s. record s { net = close c s.net }

abbrev pub go : Task → M (Unit {0})
go t = modify λ s. record s { tasks = t ∷ s.tasks }

pub write_conn : ℕ → Bytes → M (Option Error)
unfolding write
write_conn c b s = let (e, w) = write c b s.net in done (e, record s { net = w })

take_write : RwMutex → Server → Outcome (Unit {0} × Server)
take_write free s = done (tt, record s { clients_mu = writing })
take_write (reading n) s = blocked
take_write writing s = blocked

take_read : RwMutex → Server → Outcome (Unit {0} × Server)
take_read free s = done (tt, record s { clients_mu = reading 0 })
take_read (reading n) s = done (tt, record s { clients_mu = reading (suc n) })
take_read writing s = blocked

drop_write : RwMutex → Server → Outcome (Unit {0} × Server)
drop_write writing s = done (tt, record s { clients_mu = free })
drop_write _ s = fatal

drop_read : RwMutex → Server → Outcome (Unit {0} × Server)
drop_read free s = fatal
drop_read (reading zero) s = done (tt, record s { clients_mu = free })
drop_read (reading (suc n)) s = done (tt, record s { clients_mu = reading n })
drop_read writing s = fatal

-- `clientsMu.Lock()`, `Unlock()`, `RLock()` and `RUnlock()`.
pub lock : M (Unit {0})
unfolding take_write
lock s = take_write s.clients_mu s

pub unlock : M (Unit {0})
unfolding drop_write
unlock s = drop_write s.clients_mu s

pub rlock : M (Unit {0})
unfolding take_read
rlock s = take_read s.clients_mu s

pub runlock : M (Unit {0})
unfolding drop_read
runlock s = drop_read s.clients_mu s

-- The lookup of a client under the read lock, with which most handlers begin.
pub find_client : Bytes → M (Option ℕ)
find_client id = do rlock; found ← gets (λ s. lookup id s.clients); runlock; pure found

-- The same under the write lock, as `handleInitFrame` does it.
pub find_client_locked : Bytes → M (Option ℕ)
find_client_locked id = do lock; found ← gets (λ s. lookup id s.clients); unlock; pure found

abbrev pub get_info : ℕ → M ClientInfo
get_info p = gets λ s. s.infos p

-- `ConnMap.Store` and `ConnMap.Delete`.
abbrev pub store_conn : ℕ → ℕ → ℕ → M (Unit {0})
store_conn p k c s =
    set_info p (record (s.infos p) { conn_map = insert k c (s.infos p).conn_map }) s

abbrev pub delete_conn : ℕ → ℕ → M (Unit {0})
delete_conn p k s = set_info p (record (s.infos p) { conn_map = delete k (s.infos p).conn_map }) s

-- `EncodeFrame` and then `Conn.Write`, with the error of the step that failed.
pub send : ℕ → Frame → M (Option Error)
send c f = elim (encode_frame (some f)) [ err e ↦ pure (some e) | ok b ↦ write_conn c b ]

-- `sendCloseFrame`: errors are only logged.
pub send_close_frame : Bytes → ℕ → M (Unit {0})
send_close_frame id conn_id = do
  found ← find_client id
  when_some found
      λ p. do info ← get_info p; _ ← send info.conn (bare_frame Proto.close conn_id); pure tt

-- A stretch of code ends, in a state and with a value that satisfy `Q`. It does not wait for ever.
abbrev pub Returns : {A : Type 0} → Outcome (A × Server) → (A → Server → Type 0) → Type 0
Returns (done (a, s)) Q = Q a s
Returns blocked Q = ⊥
Returns fatal Q = ⊥

-- The rules for a bind.
pub Returns-chain :
    {A B : Type 0} (o : Outcome (A × Server)) (f : A → M B) (Q : A → Server → Type 0)
    (R : B → Server → Type 0)
    → Returns o Q
    → ((a : A) (s' : Server) → Q a s' → Returns (f a s') R)
    → Returns (chain o f) R
Returns-chain (done (a, s')) f Q R q k = k a s' q
Returns-chain blocked f Q R q k = absurd q
Returns-chain fatal f Q R q k = absurd q

pub Returns_mono :
    {A : Type 0} (o : Outcome (A × Server)) (Q R : A → Server → Type 0)
    → Returns o Q
    → ((a : A) (s' : Server) → Q a s' → R a s')
    → Returns o R
Returns_mono (done (a, s')) Q R q k = k a s' q
Returns_mono blocked Q R q k = absurd q
Returns_mono fatal Q R q k = absurd q

pub chain_congr :
    {A B : Type 0} (o : Outcome (A × Server)) (f g : A → M B)
    → ((a : A) (s : Server) → f a s ≡ g a s)
    → chain o f ≡ chain o g
chain_congr (done (a, s)) f g h = h a s
chain_congr blocked f g h = refl
chain_congr fatal f g h = refl

pub chain_assoc :
    {A B C : Type 0} (o : Outcome (A × Server)) (f : A → M B) (g : B → M C)
    → chain (chain o f) g ≡ chain o (λ a. f a >>= g)
chain_assoc (done (a, s)) f g = refl
chain_assoc blocked f g = refl
chain_assoc fatal f g = refl
