-- ===== src/Tunnel/Client/Frames/Dialled.antt =====
-- A NEW_CONN frame whose dial succeeds, and what follows it.
use ngp_mtls.Prelude.{
  ℕ, ◌≡◌, ◌≢◌, refl, ap, true, none, some, List, [], ◌∷◌, insert, lookup-insert, nat_eq, beq_refl,
  arith, Result, ok,
}
use ngp_mtls.Proto
use ngp_mtls.Proto.{Frame, bare_frame}
use ngp_mtls.Tunnel.Net.{opened, dial}
use ngp_mtls.Tunnel.Client.{Client}
use ngp_mtls.Tunnel.Client.Frames.{handle_new_conn, dial_local, handle_frame, handle_all}
use ngp_mtls.Tunnel.Client.Frames.Relay.{IsServing}

-- The local connection `l` is dialled for the number `k`.
abbrev pub dialled : Client → ℕ → ℕ → List (Result ℕ) → Client
dialled t k l rest = record t {
  net = opened l (record t.net { dials = rest });
  conn_map = insert k l t.conn_map;
  tasks = (k, l) ∷ t.tasks;
}

handle_new_conn-dialled :
    (k l : ℕ) (t : Client) (rest : List (Result ℕ))
    → t.net.dials ≡ ok l ∷ rest
    → handle_new_conn (bare_frame Proto.new_conn k) t ≡ (none, dialled t k l rest)
unfolding handle_new_conn dial_local dial
handle_new_conn-dialled k l t rest d = ground arith

pub handle_frame-dialled :
    (k l : ℕ) (t : Client) (rest : List (Result ℕ))
    → t.net.dials ≡ ok l ∷ rest
    → (handle_frame (bare_frame Proto.new_conn k) t).1 ≡ dialled t k l rest
unfolding handle_frame
handle_frame-dialled k l t rest d = ap (λ z. z.1) (handle_new_conn-dialled k l t rest d)

pub handle_all-dialled :
    (k l : ℕ) (fs : List Frame) (t : Client) (rest : List (Result ℕ))
    → t.net.dials ≡ ok l ∷ rest
    → handle_all (bare_frame Proto.new_conn k ∷ fs) t ≡ handle_all fs (dialled t k l rest)
unfolding handle_all
handle_all-dialled k l fs t rest d = ap (handle_all fs) (handle_frame-dialled k l t rest d)

pub handle_all-alone :
    (k l : ℕ) (t : Client) (rest : List (Result ℕ))
    → t.net.dials ≡ ok l ∷ rest
    → handle_all (bare_frame Proto.new_conn k ∷ []) t ≡ (tt, dialled t k l rest)
unfolding handle_all
handle_all-alone k l t rest d = handle_all-dialled k l [] t rest d

-- The client has the control connection `c`, which takes all that is written to it, and the next dial
-- returns the connection `l`, which does so too.
pub record IsWilling (t : Client) (c l : ℕ) (rest : List (Result ℕ)) : Type 0 where
  pub connected : t.control_conn ≡ some c
  pub control_open : t.net.is_open c ≡ true
  pub control_unlimited : t.net.limit c ≡ none
  pub dials : t.net.dials ≡ ok l ∷ rest
  pub local_unlimited : t.net.limit l ≡ none
  pub apart : c ≢ l

pub dialled-IsServing :
    (t : Client) (k c l : ℕ) (rest : List (Result ℕ))
    → IsWilling t c l rest
    → IsServing (dialled t k l rest) k c l
dialled-IsServing t k c l rest v = record {
  connected = v.connected;
  mapped = rw (lookup-insert, beq_refl k) refl;
  control_open = ground (arith, v.control_open);
  local_open = ground arith;
  control_unlimited = v.control_unlimited;
  local_unlimited = v.local_unlimited;
  apart = v.apart;
}
