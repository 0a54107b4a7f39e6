-- ===== src/Tunnel/Server/Sound/Actions.antt =====
-- The single changes that the server's code makes keep a sound state.
use ngp_mtls.Prelude.{
  ℕ, ◌≤◌, ◌<◌, ◌≡◌, refl, ◌++◌, inl, inr, Bool-cases, none, some, List, [], ◌∷◌, Bytes, All, lookup,
  delete, lookup-delete, nat_eq, bytes_eq, ◌==◌, arith,
}
use ngp_mtls.Proto.{Frame}
use ngp_mtls.Proto.RoundTrip.{layout, IsSendable}
use ngp_mtls.Tunnel.Net.{Net, write, close}
use ngp_mtls.Tunnel.Server.{Server, Task, RwMutex, free}
use ngp_mtls.Tunnel.Server.Sound.{Owner, control, mapped, listener, Uses, IsTask, IsSound}
use ngp_mtls.Tunnel.Server.Sound.Owners.{IsOwned-sub}
use ngp_mtls.Tunnel.Protocol.{Speaks}
use ngp_mtls.Tunnel.Framed.{IsFramed, IsFramed-same, write-IsFramed, write-IsFramed_other}

-- Later, with more connections.
pub All-IsTask :
    (j j' fresh fresh' : ℕ) (ts : List Task)
    → j ≤ j'
    → fresh ≤ fresh'
    → All (IsTask j fresh) ts
    → All (IsTask j' fresh') ts
All-IsTask j j' fresh fresh' [] le le' v = tt
All-IsTask j j' fresh fresh' (t ∷ ts) le le' (v, vs) =
    (one t v, All-IsTask j j' fresh fresh' ts le le' vs)
  where
    one : (t : Task) → IsTask j fresh t → IsTask j' fresh' t
    one (Task.public_reader p id k c) v = omega arith
    one (Task.client_frames id c) v = tt
    one (Task.client_listener id l) v = tt
    one (Task.global_listener l) v = tt
    one (Task.control_listener l) v = tt

pub IsSound-later : (j j' n n' : ℕ) (s : Server) → j ≤ j' → n ≤ n' → IsSound j n s → IsSound j' n' s
IsSound-later j j' n n' s le le' v = record {
  numbered = v.numbered;
  client_ids = omega (arith, v.client_ids);
  conn_ids = λ p h. omega (arith, v.conn_ids p h);
  counted = v.counted;
  owners = IsOwned-sub v.owners s n' le' (λ o c u. u);
  streams = v.streams;
  started = All-IsTask j j' s.fresh s.fresh s.tasks le (omega arith) v.started;
}

module _ {j n : ℕ} (s : Server) (v : IsSound j n s) where
  -- The network changes, and every control connection keeps whole frames.
  pub IsSound-net :
      (w : Net)
      → ((p : ℕ) → p < s.fresh → IsFramed (Speaks (s.infos p)) w (s.infos p).conn)
      → IsSound j n (record s { net = w })
  IsSound-net w streams = record {
    numbered = record { names = v.numbered.names };
    client_ids = v.client_ids;
    conn_ids = v.conn_ids;
    counted = v.counted;
    owners = IsOwned-sub v.owners (record s { net = w }) n (omega arith) (λ o c u. same o c u);
    streams = streams;
    started = v.started;
  }
    where
      same : (o : Owner) (c : ℕ) → Uses (record s { net = w }) o c → Uses s o c
      same (control p) c u = u
      same (mapped p k) c u = u
      same (listener p) c u = u

  pub IsSound-close : (c : ℕ) → IsSound j n (record s { net = close c s.net })
  IsSound-close c = IsSound-net (close c s.net) λ p h.
      IsFramed-same s.net (close c s.net) (s.infos p).conn (v.streams p h) (λ fs q. q) refl refl

  -- A frame to the client at `p`.
  pub IsSound-send :
      (p : ℕ) (f : Frame)
      → p < s.fresh
      → IsSendable f
      → ((fs : List Frame) → Speaks (s.infos p) fs → Speaks (s.infos p) (fs ++ f ∷ []))
      → IsSound j n (record s { net = (write (s.infos p).conn (layout f) s.net).1 })
  IsSound-send p f below sendable more =
      IsSound-net (write (s.infos p).conn (layout f) s.net).1 λ q h.
        elim (Bool-cases ((s.infos q).conn == (s.infos p).conn)) [
          | inl same ↦
              let e : (s.infos q).conn ≡ (s.infos p).conn = ground arith in
              let at : q ≡ p =
                cc
                  (v.owners.unique (control q) (control p) (s.infos p).conn (h, e) (below, refl)) in
              rw at (
                write-IsFramed s.net (s.infos p).conn f (v.streams p below) (λ _ fs x. x) more
                  sendable)
          | inr differ ↦
              write-IsFramed_other s.net (s.infos p).conn (s.infos q).conn (layout f) (ground arith)
                (v.streams q h) (λ fs q. q)
        ]

  -- Bytes to an outside connection.
  pub IsSound-write :
      (p k c : ℕ) (b : Bytes)
      → p < s.fresh
      → lookup k (s.infos p).conn_map ≡ some c
      → IsSound j n (record s { net = (write c b s.net).1 })
  IsSound-write p k c b below there = IsSound-net (write c b s.net).1 λ q h.
      write-IsFramed_other s.net c (s.infos q).conn b
        (λ e. cc (v.owners.unique (control q) (mapped p k) c (h, e) (below, there))) (v.streams q h)
        (λ fs q. q)

  -- A name goes.
  pub IsSound-unlist : (id : Bytes) → IsSound j n (record s { clients = delete id s.clients })
  IsSound-unlist id = record {
    numbered = record {
      names = λ i p h. v.numbered.names i p (ground (arith, lookup-delete id i s.clients));
    };
    client_ids = v.client_ids;
    conn_ids = v.conn_ids;
    counted = v.counted;
    owners = IsOwned-sub v.owners (record s { clients = delete id s.clients }) n (omega arith) same;
    streams = v.streams;
    started = v.started;
  }
    where
      same :
          (o : Owner) (c : ℕ) → Uses (record s { clients = delete id s.clients }) o c → Uses s o c
      same (control p) c u = u
      same (mapped p k) c u = u
      same (listener p) c u = u

  -- Goroutines come and go.
  pub IsSound-tasks :
      (ts : List Task) → All (IsTask j s.fresh) ts → IsSound j n (record s { tasks = ts })
  IsSound-tasks ts started = record {
    numbered = record { names = v.numbered.names };
    client_ids = v.client_ids;
    conn_ids = v.conn_ids;
    counted = v.counted;
    owners = IsOwned-sub v.owners (record s { tasks = ts }) n (omega arith) same;
    streams = v.streams;
    started = started;
  }
    where
      same : (o : Owner) (c : ℕ) → Uses (record s { tasks = ts }) o c → Uses s o c
      same (control p) c u = u
      same (mapped p k) c u = u
      same (listener p) c u = u

  -- A `go` statement.
  pub IsSound-go : (t : Task) → IsTask j s.fresh t → IsSound j n (record s { tasks = t ∷ s.tasks })
  IsSound-go t h = IsSound-tasks (t ∷ s.tasks) (h, v.started)

  -- The table is emptied, and the global listener forgotten.
  pub IsSound-empty :
      IsSound j n (record s { clients = []; public_listener = none; clients_mu = free })
  unfolding lookup
  IsSound-empty = record {
    numbered = record { names = λ id p h. absurd (unknown id p h) };
    client_ids = v.client_ids;
    conn_ids = v.conn_ids;
    counted = v.counted;
    owners = IsOwned-sub v.owners t n (omega arith) same;
    streams = v.streams;
    started = v.started;
  }
    where
      t : Server
      t = record s { clients = []; public_listener = none; clients_mu = free }

      unknown : (id : Bytes) (p : ℕ) → lookup id t.clients ≡ some p → ⊥
      unknown id p h = cc

      same : (o : Owner) (c : ℕ) → Uses t o c → Uses s o c
      same (control p) c u = u
      same (mapped p k) c u = u
      same (listener p) c u = u

  -- The mutex.
  pub IsSound-mutex : (m : RwMutex) → IsSound j n (record s { clients_mu = m })
  IsSound-mutex m = record {
    numbered = record { names = v.numbered.names };
    client_ids = v.client_ids;
    conn_ids = v.conn_ids;
    counted = v.counted;
    owners = IsOwned-sub v.owners (record s { clients_mu = m }) n (omega arith) same;
    streams = v.streams;
    started = v.started;
  }
    where
      same : (o : Owner) (c : ℕ) → Uses (record s { clients_mu = m }) o c → Uses s o c
      same (control p) c u = u
      same (mapped p k) c u = u
      same (listener p) c u = u
