-- ===== src/Tunnel/Server/Keeping.antt =====
-- An action that opens no outside connection, and leaves none open that it takes out of a map.
pub mod Tidy
use ngp_mtls.Prelude.{
  Has, ℕ, ◌≤◌, ◌<◌, ◌≡◌, refl, ◌∙◌, true, false, some, Bytes, lookup, lookup-delete, delete, nat_eq,
  update, arith,
}
use ngp_mtls.Tunnel.Net.{Net, close, write}
use ngp_mtls.Tunnel.Server.{Server, ClientInfo, public_reader}

-- Nothing that was closed is open, among the connections below `n`; nothing is in a map that was
-- not; and the same goroutines have been started.
pub record Shrinks (n : ℕ) (s s' : Server) : Type 0 where
  pub fresh : s'.fresh ≡ s.fresh
  pub closed : (c : ℕ) → c < n → s'.net.is_open c ≡ true → s.net.is_open c ≡ true
  pub entries :
      (p k c : ℕ) → lookup k (s'.infos p).conn_map ≡ some c → lookup k (s.infos p).conn_map ≡ some c
  pub ids : (p : ℕ) → (s.infos p).next_conn_id ≤ (s'.infos p).next_conn_id
  pub readers :
      (p : ℕ) (id : Bytes) (k c : ℕ)
      → Has (public_reader p id k c) s'.tasks
      → Has (public_reader p id k c) s.tasks
  pub started :
      (p : ℕ) (id : Bytes) (k c : ℕ)
      → Has (public_reader p id k c) s.tasks
      → Has (public_reader p id k c) s'.tasks

-- What is in a map and stays open stays in the map.
abbrev pub Retains : ℕ → Server → Server → Type 0
Retains n s s' =
    (p k c : ℕ)
    → c < n
    → lookup k (s.infos p).conn_map ≡ some c
    → s'.net.is_open c ≡ true
    → lookup k (s'.infos p).conn_map ≡ some c

abbrev pub Keeps : ℕ → Server → Server → Type 0
Keeps n s s' = Shrinks n s s' × Retains n s s'

pub Shrinks-trans : {n : ℕ} (s t u : Server) → Shrinks n s t → Shrinks n t u → Shrinks n s u
Shrinks-trans s t u a b = record {
  fresh = b.fresh ∙ a.fresh;
  closed = λ c h o. a.closed c h (b.closed c h o);
  entries = λ p k c h. a.entries p k c (b.entries p k c h);
  ids = λ p. omega (arith, a.ids p, b.ids p);
  readers = λ p id k c h. a.readers p id k c (b.readers p id k c h);
  started = λ p id k c h. b.started p id k c (a.started p id k c h);
}

pub Keeps-trans : {n : ℕ} (s t u : Server) → Keeps n s t → Keeps n t u → Keeps n s u
Keeps-trans s t u (a, ra) (b, rb) =
    (Shrinks-trans s t u a b, λ p k c h m o. rb p k c h (ra p k c h m (b.closed c h o)) o)

-- The network changes.
pub Keeps-net :
    {n : ℕ} (s : Server) (w : Net)
    → ((c : ℕ) → c < n → w.is_open c ≡ true → s.net.is_open c ≡ true)
    → Keeps n s (record s { net = w })
Keeps-net s w closed = (
  record {
    fresh = refl;
    closed = closed;
    entries = λ p k c h. h;
    ids = λ p. omega arith;
    readers = λ p id k c h. h;
    started = λ p id k c h. h;
  },
  λ p k c h m o. m,
)

pub Keeps-refl : {n : ℕ} (s : Server) → Keeps n s s
Keeps-refl s = Keeps-net s s.net (λ c h o. o)

pub Keeps-close : {n : ℕ} (s : Server) (c : ℕ) → Keeps n s (record s { net = close c s.net })
Keeps-close s c = Keeps-net s (close c s.net) (λ d h o. ground arith)

pub write-is_open : (c d : ℕ) (b : Bytes) (w : Net) → (write c b w).1.is_open d ≡ w.is_open d
unfolding write
write-is_open c d b w = ground arith

pub Keeps-write :
    {n : ℕ} (s : Server) (c : ℕ) (b : Bytes) → Keeps n s (record s { net = (write c b s.net).1 })
Keeps-write s c b = Keeps-net s (write c b s.net).1 (λ d h o. rw (write-is_open c d b s.net) at o)

-- A field of a client's record changes, not its map.
pub Keeps-info :
    {n : ℕ} (s : Server) (p : ℕ) (i : ClientInfo)
    → i.conn_map ≡ (s.infos p).conn_map
    → (s.infos p).next_conn_id ≤ i.next_conn_id
    → Keeps n s (record s { infos = update s.infos p i })
Keeps-info s p i same le = (
  record {
    fresh = refl;
    closed = λ c h o. o;
    entries = λ q k c h. ground (arith, same);
    ids = λ q. ground arith;
    readers = λ q id k c h. h;
    started = λ q id k c h. h;
  },
  λ q k c h m o. ground (arith, same),
)

abbrev pub deleted : ℕ → ℕ → Server → Server
deleted p k s = record s {
  infos = update s.infos p (record (s.infos p) { conn_map = delete k (s.infos p).conn_map });
}

pub deleted-Shrinks : {n : ℕ} (s : Server) (p k : ℕ) → Shrinks n s (deleted p k s)
deleted-Shrinks s p k = record {
  fresh = refl;
  closed = λ c h o. o;
  entries = λ q i c h. ground (arith, lookup-delete k i (s.infos p).conn_map);
  ids = λ q. ground arith;
  readers = λ q id i c h. h;
  started = λ q id i c h. h;
}

-- A number leaves the map whose connection, if it has one, is closed.
pub Keeps-delete :
    {n : ℕ} (s : Server) (p k : ℕ)
    → ((c : ℕ) → lookup k (s.infos p).conn_map ≡ some c → s.net.is_open c ≡ false)
    → Keeps n s (deleted p k s)
Keeps-delete s p k closed = (
  deleted-Shrinks s p k,
  λ q i c h m o. ground (arith, lookup-delete k i (s.infos p).conn_map, closed c),
)
