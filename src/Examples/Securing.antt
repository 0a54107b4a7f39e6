-- ===== src/Examples/Securing.antt =====
-- Listeners, dialers and their connections.
use ngp_mtls.Prelude.{
  ℕ, ◌≤◌, ◌≡◌, refl, Bool, true, false, Option, none, some, [], ◌∷◌, Bytes, codes, Result, ok,
  update, arith, pos,
}
use ngp_mtls.Pqctls.{wants_more, shaken}
use ngp_mtls.Pqctls.Context.{Call, server_side, client_side, create_server_ctx, create_client_ctx}
use ngp_mtls.Pqctls.Context.Strict
use ngp_mtls.Pqctls.Context.Strict.{server_plan, client_plan, create_ctx_lem}
use ngp_mtls.Pqctls.Endpoint.{Meeting, accept_conn, dial_conn, new_listener, new_dialer}
use ngp_mtls.Pqctls.Endpoint.Safe
use ngp_mtls.Pqctls.Endpoint.Safe.{accept_conn_lem}
use ngp_mtls.Pqctls.Endpoint.Built.{Built, new_endpoint_lem}
use ngp_mtls.Pqctls.Conn.{
  Answer, read_conn, write_conn, reading, writing, tested, calling, test, lock, close_lock,
  close_live, System, moves, fresh, Reach, start, later,
}
use ngp_mtls.Pqctls.Conn.Results.{Returned, read_conn_bounds}
use ngp_mtls.Pqctls.Conn.Lock.{ssl_exclusive}
use ngp_mtls.Pqctls.Conn.Progress.{to_call, gets_lock}
use ngp_mtls.Pqctls.Conn.{Quiet}
use ngp_mtls.Pqctls.Standard.{TlsFiles, new_server_tls_config, new_client_tls_config}
use ngp_mtls.Pqctls.Standard.Mutual
use ngp_mtls.Pqctls.Standard.Mutual.{ServerGood, ClientGood, tls_config_lem}

-- Every call succeeds; one file does not exist.
abbrev all_good : Call → Bool
all_good c = true

abbrev only_ca_missing : Bytes → Bool
only_ca_missing [] = true
only_ca_missing (b ∷ bs) = false

abbrev cert : Bytes
cert = codes "cert.pem"

abbrev key : Bytes
key = codes "key.pem"

create_ctx_lem_example :
    Strict.Ended all_good server_side
      (server_plan cert key none)
      (create_server_ctx all_good cert key none)
    × Strict.Ended all_good client_side
        (client_plan (some cert) (some key) none)
        (create_client_ctx all_good (some cert) (some key) none)
create_ctx_lem_example = create_ctx_lem all_good cert key (some cert) (some key) none

abbrev meeting : Meeting
meeting = record {
  arrival = none;
  raw = none;
  control = none;
  made = true;
  fd_set = true;
  attempts = wants_more ∷ shaken (pos 513) (some (codes "MLKEM768")) ∷ [];
}

accept_conn_lem_example :
    Safe.Ended meeting (accept_conn meeting) × Safe.Ended meeting (dial_conn meeting)
accept_conn_lem_example = accept_conn_lem meeting

new_endpoint_lem_example :
    Built only_ca_missing all_good server_side
      (server_plan cert key none)
      (some cert, some key, none)
      (new_listener only_ca_missing all_good cert key [])
    × Built only_ca_missing all_good client_side
        (client_plan (some cert) (some key) none)
        (some cert, some key, none)
        (new_dialer only_ca_missing all_good cert key [])
new_endpoint_lem_example = new_endpoint_lem only_ca_missing all_good cert key []

abbrev answer : Answer
answer = record { n = pos 3; code = 0 }

read_conn_bounds_example :
    Returned 4 answer (read_conn true 4 answer) × Returned 4 answer (write_conn true 4 answer)
read_conn_bounds_example = read_conn_bounds true 4 answer (omega arith)

-- A goroutine is in `SSL_read`, and then another one means to write.
abbrev reading_state : System
reading_state = record {
  mem = record (fresh false).mem { locked = true };
  pc = update (update (fresh false).pc 0 (tested reading)) 0 (calling reading);
}

reading_reached : Reach reading_state
reading_reached =
    later (later (start false) (moves 0 (test reading refl))) (moves 0 (lock reading refl))

ssl_exclusive_example : (◌≡◌ {A = ℕ} 0 0) × (reading_state.mem.frees ≤ 1)
ssl_exclusive_example = ssl_exclusive 0 0 reading_reached refl refl

abbrev both : System
both = record reading_state { pc = update reading_state.pc 1 (tested writing) }

gets_lock_example : (t : System) × Quiet both t × (t.pc 1 ≡ calling writing) × (t.mem.arrived ≡ 0)
gets_lock_example =
    gets_lock 1 (calling writing) (later reading_reached (moves 1 (test writing refl))) refl
      (to_call writing)

abbrev load_pair : Bytes → Bytes → Result ℕ
load_pair c k = ok 1

abbrev read_file : Bytes → Result Bytes
read_file f = ok f

abbrev pool_of : Bytes → Option Bytes
pool_of [] = none
pool_of (b ∷ bs) = some (b ∷ bs)

abbrev files : TlsFiles
files = record { cert_file = cert; key_file = key; ca_file = codes "ca.pem"; server_name = [] }

tls_config_lem_example :
    Mutual.Ended load_pair read_file pool_of files
      (ServerGood load_pair read_file pool_of)
      (new_server_tls_config load_pair read_file pool_of files)
    × Mutual.Ended load_pair read_file pool_of files
        (ClientGood load_pair read_file pool_of files.server_name)
        (new_client_tls_config load_pair read_file pool_of files)
tls_config_lem_example = tls_config_lem load_pair read_file pool_of files

-- The test of `c.ssl` stands before the lock: a `Close` between the two leaves a goroutine in OpenSSL
-- with a null pointer.
null_use : (s : System) × Reach s × (s.pc 0 ≡ calling writing) × (s.mem.ssl ≡ false)
null_use = (
  _,
  later
      (later (later (later (start false) (moves 0 (test writing refl))) (moves 1 (close_lock refl)))
        (moves 1 (close_live refl)))
      (moves 0 (lock writing refl)),
  refl,
  refl,
)
