-- ===== src/Pqctls/Conn.antt =====
-- internal/pqctls/pqc_tls_openssl.go: `PQCConn`. `read_conn` and `write_conn` are `Read` and `Write`
-- without anybody else; `Move` is the same code, a shared access at a time, with `Close`.
pub mod Results
pub mod Lock
pub mod Progress
use ngp_mtls.Prelude.{
  ℕ, suc, ◌+◌, ◌<◌, ◌≡◌, Bool, true, false, ◌||◌, Option, none, some, ◌==◌, if◌then◌else◌, ℤ, pos,
  negsuc, positive, update,
}

-- The codes of `SSL_get_error` that the program tells apart.
abbrev pub want_read : ℕ
want_read = 2

abbrev pub want_write : ℕ
want_write = 3

abbrev pub zero_return : ℕ
zero_return = 6

-- The errors of `Read` and `Write`.
pub data ConnError : Type 0 where
  not_established conn_eof : ConnError
  ssl_error : ℕ → ConnError

-- What `SSL_read` or `SSL_write` returns, and the code that `SSL_get_error` makes of that.
pub record Answer : Type 0 where
  pub n : ℤ
  pub code : ℕ

-- `int(n)` of a positive result.
abbrev pub magnitude : ℤ → ℕ
magnitude (pos n) = n
magnitude (negsuc n) = 0

-- What both methods make of the answer.
after_call : Answer → ℕ × Option ConnError
after_call a =
    if positive a.n
    then (magnitude a.n, none)
    else if a.code == zero_return
    then (0, some conn_eof)
    else if a.code == want_read || a.code == want_write
    then (0, none)
    else (0, some (ssl_error a.code))

-- `Read` into a buffer of `size` bytes; `ssl` says whether the SSL object is there.
pub read_conn : Bool → ℕ → Answer → ℕ × Option ConnError
read_conn ssl size a =
    if ssl then (if size == 0 then (0, none) else after_call a) else (0, some not_established)

-- `Write` of `size` bytes.
pub write_conn : Bool → ℕ → Answer → ℕ × Option ConnError
write_conn ssl size a =
    if ssl then (if size == 0 then (0, none) else after_call a) else (0, some not_established)

-- The calls that need the SSL object.
pub data Op : Type 0 where
  reading writing : Op

-- The fields of `PQCConn`, and beside them the number of bytes that can be read now
-- (the end of the stream counts as one more), how often the SSL object
-- was freed, and whether its descriptor is one on which a read waits; those of the `net` package
-- are not.
pub record Mem : Type 0 where
  pub blocks : Bool
  pub locked : Bool
  pub ssl : Bool
  pub conn_open : Bool
  pub arrived : ℕ
  pub frees : ℕ

-- Where a goroutine stands: outside, past the test of `c.ssl` and before the lock, in the call of
-- OpenSSL, or in `Close` behind the lock.
pub data Pc : Type 0 where
  idle : Pc
  tested : Op → Pc
  calling : Op → Pc
  closing : Pc

-- One step of a goroutine that calls the methods as it likes. `SSL_read` returns
-- some of the bytes that can be read once there are any, or when the connection below is closed; on
-- a descriptor that does not block it may also return at once and want more.
-- `SSL_write` returns at any time. `below` is a call that only goes to the connection below
-- (`LocalAddr`, `RemoteAddr` and the deadlines), without the mutex.
pub data Move (m : Mem) : Pc → Mem → Pc → Type 0 where
  below : Move m idle m idle
  refuse : (o : Op) → m.ssl ≡ false → Move m idle m idle
  test : (o : Op) → m.ssl ≡ true → Move m idle m (tested o)
  lock : (o : Op) → m.locked ≡ false → Move m (tested o) (record m { locked = true }) (calling o)
  read_some :
      (k n : ℕ)
      → m.arrived ≡ k + suc n
      → Move m (calling reading) (record m { locked = false; arrived = k }) idle
  read_wants : m.blocks ≡ false → Move m (calling reading) (record m { locked = false }) idle
  read_broken : m.conn_open ≡ false → Move m (calling reading) (record m { locked = false }) idle
  written : Move m (calling writing) (record m { locked = false }) idle
  close_lock : m.locked ≡ false → Move m idle (record m { locked = true }) closing
  close_live :
      m.ssl ≡ true
      → Move m closing
          (record m { locked = false; ssl = false; conn_open = false; frees = m.frees + 1 })
          idle
  close_again : m.ssl ≡ false → Move m closing (record m { locked = false; conn_open = false }) idle

pub record System : Type 0 where
  pub mem : Mem
  pub pc : ℕ → Pc

-- A step of the system: a goroutine's, or bytes that arrive.
pub data Step (s : System) : System → Type 0 where
  moves :
      (i : ℕ) {m : Mem} {p : Pc}
      → Move s.mem (s.pc i) m p
      → Step s (record { mem = m; pc = update s.pc i p })
  arrives : (k : ℕ) → Step s (record s { mem = record s.mem { arrived = s.mem.arrived + k } })

-- A connection as `Accept` and `Dial` return it, used by goroutines.
abbrev pub fresh : Bool → System
fresh b = record {
  mem = record { blocks = b; locked = false; ssl = true; conn_open = true; arrived = 0; frees = 0 };
  pc = λ _. idle;
}

pub data Reach : System → Type 0 where
  start : (b : Bool) → Reach (fresh b)
  later : {s t : System} → Reach s → Step s t → Reach t

-- Steps of goroutines only: nothing arrives.
pub data Quiet (s : System) : System → Type 0 where
  stay : Quiet s s
  move :
      {t : System} (i : ℕ) {m : Mem} {p : Pc}
      → Quiet s t
      → Move t.mem (t.pc i) m p
      → Quiet s (record { mem = m; pc = update t.pc i p })

-- Behind the lock.
abbrev pub holds : Pc → Bool
holds idle = false
holds (tested o) = false
holds (calling o) = true
holds closing = true
