-- ===== src/Pqctls/Conn/Lock.antt =====
-- The mutex of a connection: what it guards, and what it does not.
use ngp_mtls.Prelude.{
  ℕ, ◌≤◌, ◌≡◌, ◌≢◌, refl, ◌⊎◌, inl, inr, Bool-cases, true, false, if◌then◌else◌, update, arith,
}
use ngp_mtls.Pqctls.Conn.{
  reading, Mem, Pc, idle, tested, calling, closing, Move, below, refuse, test, lock, read_some,
  read_wants, read_broken, written, close_lock, close_live, close_again, System, Step, moves,
  arrives, Reach, start, later, Quiet, stay, move, holds,
}

-- True in every reachable state: the mutex is taken exactly when a goroutine is behind it, which
-- is one at most, and the SSL object was freed once if it is gone, and never if it is there.
pub record Inv (m : Mem) (pc : ℕ → Pc) : Type 0 where
  pub taken : (i : ℕ) → holds (pc i) ≡ true → m.locked ≡ true
  pub held : m.locked ≡ true → (i : ℕ) × (holds (pc i) ≡ true)
  pub unique : (i j : ℕ) → holds (pc i) ≡ true → holds (pc j) ≡ true → i ≡ j
  pub freed : (if m.ssl then 0 else 1) ≡ m.frees

module _ {m : Mem} {pc : ℕ → Pc} (v : Inv m pc) (i : ℕ) where
  -- A goroutine gets behind the free lock.
  locks :
      (m' : Mem) (p : Pc)
      → m.locked ≡ false
      → m'.locked ≡ true
      → holds p ≡ true
      → (if m'.ssl then 0 else 1) ≡ m'.frees
      → Inv m' (update pc i p)
  locks m' p was now inside freed = record {
    taken = λ j h. now;
    held = λ h. (i, ground (arith, inside));
    unique = λ j k hj hk. ground (arith, v.taken j, v.taken k);
    freed = freed;
  }

  -- A goroutine that is behind the lock leaves it.
  unlocks :
      (m' : Mem)
      → holds (pc i) ≡ true
      → m'.locked ≡ false
      → (if m'.ssl then 0 else 1) ≡ m'.frees
      → Inv m' (update pc i idle)
  unlocks m' inside now freed = record {
    held = λ h. absurd (ground arith);
    taken = λ j h. absurd (ground (arith, v.unique i j));
    unique = λ j k hj hk. ground (arith, v.unique j k);
    freed = freed;
  }

  -- A step outside the lock.
  stays : (p : Pc) → holds (pc i) ≡ false → holds p ≡ false → Inv m (update pc i p)
  stays p out still = record {
    taken = λ j h. ground (arith, v.taken j);
    held = λ h. let (j, inside) = v.held h in (j, ground (arith, inside));
    unique = λ j k hj hk. ground (arith, v.unique j k);
    freed = v.freed;
  }

  Move-Inv : {m' : Mem} {p p' : Pc} → pc i ≡ p → Move m p m' p' → Inv m' (update pc i p')
  Move-Inv at below = stays idle (ground (arith, at)) refl
  Move-Inv at (refuse o h) = stays idle (ground (arith, at)) refl
  Move-Inv at (test o h) = stays (tested o) (ground (arith, at)) refl
  Move-Inv at (lock o h) = locks _ (calling o) h refl refl v.freed
  Move-Inv at (read_some k n h) = unlocks _ (ground (arith, at)) refl v.freed
  Move-Inv at (read_wants h) = unlocks _ (ground (arith, at)) refl v.freed
  Move-Inv at (read_broken h) = unlocks _ (ground (arith, at)) refl v.freed
  Move-Inv at written = unlocks _ (ground (arith, at)) refl v.freed
  Move-Inv at (close_lock h) = locks _ closing h refl refl v.freed
  Move-Inv at (close_live h) = unlocks _ (ground (arith, at)) refl (ground (arith, v.freed))
  Move-Inv at (close_again h) = unlocks _ (ground (arith, at)) refl v.freed

Step-Inv : {s t : System} → Step s t → Inv s.mem s.pc → Inv t.mem t.pc
Step-Inv (moves i mv) v = Move-Inv v i refl mv
Step-Inv (arrives k) v = record {
  taken = v.taken;
  held = v.held;
  unique = v.unique;
  freed = v.freed;
}

pub Reach-Inv : {s : System} → Reach s → Inv s.mem s.pc
Reach-Inv (start b) = record {
  taken = λ i h. cc;
  held = λ h. cc;
  unique = λ i j h k. cc;
  freed = refl;
}
Reach-Inv (later r st) = Step-Inv st (Reach-Inv r)

-- However many goroutines read, write and close a connection: no two of them are in OpenSSL at
-- once, and the SSL object is freed at most once.
pub ssl_exclusive :
    {s : System} (i j : ℕ)
    → Reach s
    → holds (s.pc i) ≡ true
    → holds (s.pc j) ≡ true
    → (i ≡ j) × (s.mem.frees ≤ 1)
ssl_exclusive {s} i j r hi hj =
    ((Reach-Inv r).unique i j hi hj, ground (arith, (Reach-Inv r).freed))

-- The reader still waits, and nobody else has got behind the lock.
abbrev pub Waits : ℕ → System → Type 0
Waits r s =
    (s.mem.blocks ≡ true)
    × (s.pc r ≡ calling reading)
    × (s.mem.locked ≡ true)
    × (s.mem.arrived ≡ 0)
    × (s.mem.conn_open ≡ true)
    × ((i : ℕ) → (i ≡ r) ⊎ (holds (s.pc i) ≡ false))

Move-Waits :
    (r i : ℕ) (s : System) {m : Mem} {p p' : Pc}
    → Waits r s
    → s.pc i ≡ p
    → Move s.mem p m p'
    → Waits r (record { mem = m; pc = update s.pc i p' })
Move-Waits r i s (b, at, taken, none_yet, still, out) e (refuse o h) =
    (b, ground (arith, e), taken, none_yet, still, λ j. ground (arith, out j))
Move-Waits r i s (b, at, taken, none_yet, still, out) e below =
    (b, ground (arith, e), taken, none_yet, still, λ j. ground (arith, out j))
Move-Waits r i s (b, at, taken, none_yet, still, out) e (test o h) =
    (b, ground (arith, e), taken, none_yet, still, λ j. ground (arith, out j))
Move-Waits r i s (b, at, taken, none_yet, still, out) e (lock o h) = absurd (ground arith)
Move-Waits r i s (b, at, taken, none_yet, still, out) e (read_some k n h) = absurd (ground arith)
Move-Waits r i s (b, at, taken, none_yet, still, out) e (read_wants h) = absurd (ground arith)
Move-Waits r i s (b, at, taken, none_yet, still, out) e (read_broken h) = absurd (ground arith)
Move-Waits r i s (b, at, taken, none_yet, still, out) e written = absurd (ground (arith, out i))
Move-Waits r i s (b, at, taken, none_yet, still, out) e (close_lock h) = absurd (ground arith)
Move-Waits r i s (b, at, taken, none_yet, still, out) e (close_live h) =
    absurd (ground (arith, out i))
Move-Waits r i s (b, at, taken, none_yet, still, out) e (close_again h) =
    absurd (ground (arith, out i))

Quiet-Waits : (r : ℕ) {s t : System} → Waits r s → Quiet s t → Waits r t
Quiet-Waits r w stay = w
Quiet-Waits r w (move {t} i q mv) = Move-Waits r i t (Quiet-Waits r w q) refl mv

-- If the descriptor were one that blocks: while a goroutine is in `SSL_read` on an idle
-- connection, no other one can write to it or close it: whatever steps the goroutines take before
-- bytes arrive, the reader is still there, the connection is open, and every other goroutine is
-- outside the lock.
reader_blocks :
    {s t : System} (r i : ℕ)
    → Reach s
    → s.mem.blocks ≡ true
    → s.pc r ≡ calling reading
    → s.mem.arrived ≡ 0
    → s.mem.conn_open ≡ true
    → i ≢ r
    → Quiet s t
    → (t.pc r ≡ calling reading) × (t.mem.conn_open ≡ true) × (holds (t.pc i) ≡ false)
reader_blocks {s} {t} r i reached b at none_yet still ne q =
    let v = Reach-Inv reached in
    let waiting : Waits r s = (
      b,
      at,
      v.taken r (ground arith),
      none_yet,
      still,
      λ j. elim (Bool-cases (holds (s.pc j))) [
        | inl inside ↦ inl (v.unique j r inside (ground arith))
        | inr outside ↦ inr outside
      ],
    ) in
    let (_, at', _, _, still', out) = Quiet-Waits r waiting q in
    (at', still', ground (arith, out i))
