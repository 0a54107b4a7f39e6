-- ===== src/Pqctls/Conn/Progress.antt =====
-- Nobody waits for the network behind the mutex of a connection.
use ngp_mtls.Prelude.{ℕ, ◌≡◌, refl, ◌∙◌, inl, inr, Bool-cases, true, false, update, arith}
use ngp_mtls.Pqctls.Conn.{
  reading, writing, Mem, Pc, Op, idle, tested, calling, closing, Move, lock, read_wants, written,
  close_lock, close_live, close_again, System, Reach, Quiet, stay, move, holds,
}
use ngp_mtls.Pqctls.Conn.Lock.{Reach-Inv}

-- A goroutine before the mutex, and where it stands behind it.
pub data Wants : Pc → Pc → Type 0 where
  to_call : (o : Op) → Wants (tested o) (calling o)
  to_close : Wants idle closing

Wants-outside : {p p' : Pc} → Wants p p' → holds p ≡ false
Wants-outside (to_call o) = refl
Wants-outside to_close = refl

-- The goroutine behind the mutex can leave it.
leave :
    (m : Mem) (p : Pc)
    → m.blocks ≡ false
    → holds p ≡ true
    → (m' : Mem) × Move m p m' idle × (m'.locked ≡ false) × (m'.arrived ≡ m.arrived)
leave m idle b h = absurd (ground arith)
leave m (tested o) b h = absurd (ground arith)
leave m (calling reading) b h = (_, read_wants b, refl, refl)
leave m (calling writing) b h = (_, written, refl, refl)
leave m closing b h = elim (Bool-cases m.ssl) [
  | inl live ↦ (_, close_live live, refl, refl)
  | inr gone ↦ (_, close_again gone, refl, refl)
]

enter :
    (m : Mem) {p p' : Pc}
    → Wants p p'
    → m.locked ≡ false
    → (m' : Mem) × Move m p m' p' × (m'.arrived ≡ m.arrived)
enter m (to_call o) h = (_, lock o h, refl)
enter m to_close h = (_, close_lock h, refl)

-- While the mutex is free, or once it is, the goroutine `i` gets it.
then_enters :
    {s : System} (t : System) (i : ℕ) (p : Pc)
    → Wants (t.pc i) p
    → t.mem.locked ≡ false
    → t.mem.arrived ≡ s.mem.arrived
    → Quiet s t
    → (u : System) × Quiet s u × (u.pc i ≡ p) × (u.mem.arrived ≡ s.mem.arrived)
then_enters t i p w free same q =
    let (m, mv, arrived) = enter t.mem w free in
    (record { mem = m; pc = update t.pc i p }, move i q mv, ground arith, arrived ∙ same)

-- On a descriptor that does not block, as those of the `net` package are: in whatever state
-- goroutines have brought a connection, each one that stands before the mutex, to read, to write
-- or to close, gets behind it by steps of goroutines alone: nothing has to arrive for that, and
-- nothing that has arrived is taken.
pub gets_lock :
    {s : System} (i : ℕ) (p : Pc)
    → Reach s
    → s.mem.blocks ≡ false
    → Wants (s.pc i) p
    → (t : System) × Quiet s t × (t.pc i ≡ p) × (t.mem.arrived ≡ s.mem.arrived)
gets_lock {s} i p r b w = elim (Bool-cases s.mem.locked) [
  | inr free ↦ then_enters s i p w free refl stay
  | inl taken ↦
      let (j, inside) = (Reach-Inv r).held taken in
      let (m, mv, free, arrived) = leave s.mem (s.pc j) b inside in
      let t : System = record { mem = m; pc = update s.pc j idle } in
      let other : t.pc i ≡ s.pc i = ground (arith, Wants-outside w, inside) in
      then_enters t i p (rw other w) free arrived (move j stay mv)
]
