-- ===== src/Tunnel/Server/Keeping/Tidy.antt =====
-- Each outside connection that is open is in a map, and is read.
use ngp_mtls.Prelude.{
  List, none, [], Has, ℕ, suc, ◌+◌, ◌≤◌, ◌<◌, ◌≡◌, ◌≢◌, refl, ap, sym, ◌⊎◌, inl, inr, true, false,
  some, ◌∷◌, Bytes, lookup, lookup-insert, insert, nat_eq, bytes_eq, update, arith,
}
use ngp_mtls.Proto
use ngp_mtls.Proto.{bare_frame}
use ngp_mtls.Proto.RoundTrip.{layout}
use ngp_mtls.Tunnel.Server.{Server, Task, client_frames, public_reader}
use ngp_mtls.Tunnel.Server.Clients.Register.{registered}
use ngp_mtls.Tunnel.Server.Public.Handle.{numbered}
use ngp_mtls.Tunnel.Server.Keeping.{Keeps, Keeps-trans, Keeps-write, Keeps-info}
use ngp_mtls.Tunnel.Server.Sound.{IsSound}
use ngp_mtls.Tunnel.Server.System.{arrived, without}
use ngp_mtls.Tunnel.Server.System.Invariant.{Has-IsTask}

-- A connection is in the map of a client, and a goroutine is there that reads it under its number.
abbrev pub IsKnown : Server → ℕ → Type 0
IsKnown s c =
    (p : ℕ) × (k : ℕ) × (id : Bytes) × (p < s.fresh)
    × (lookup k (s.infos p).conn_map ≡ some c)
    × Has (public_reader p id k c) s.tasks

-- The outside connections `outs` that are open are known, and the number of a goroutine is that
-- of its own connection.
pub record Tidy (outs : ℕ → Type 0) (n : ℕ) (s : Server) : Type 0 where
  pub below : (c : ℕ) → outs c → c < n
  pub known : (c : ℕ) → outs c → s.net.is_open c ≡ true → IsKnown s c
  pub agree :
      (p : ℕ) (id : Bytes) (k c : ℕ)
      → Has (public_reader p id k c) s.tasks
      → (k ≤ (s.infos p).next_conn_id) × ((d : ℕ) → lookup k (s.infos p).conn_map ≡ some d → d ≡ c)

pub Tidy-Keeps :
    {outs : ℕ → Type 0} {n n' : ℕ} (s s' : Server)
    → n ≤ n'
    → Tidy outs n s
    → Keeps n s s'
    → Tidy outs n' s'
Tidy-Keeps s s' le v (shrinks, keeps) = record {
  below = λ c h. omega (arith, v.below c h);
  known = λ c h o.
      let (p, k, id, below, m, reader) = v.known c h (shrinks.closed c (v.below c h) o) in
      (
        p,
        k,
        id,
        rw shrinks.fresh below,
        keeps p k c (v.below c h) m o,
        shrinks.started p id k c reader,
      );
  agree = λ p id k c reader.
      let (small, own) = v.agree p id k c (shrinks.readers p id k c reader) in
      (omega (arith, small, shrinks.ids p), λ d m. own d (shrinks.entries p k d m));
}

-- A client that arrives, with its goroutine.
pub Tidy-arrives :
    {outs : ℕ → Type 0} {j n : ℕ} (s : Server) (id : Bytes)
    → IsSound j n s
    → Tidy outs n s
    → Tidy outs
        (suc n)
        (record (registered n (arrived n s)) { tasks = client_frames id n ∷ s.tasks })
Tidy-arrives {j = j} {n} s id sound v = record {
  below = λ c h. omega (arith, v.below c h);
  known = λ c h o.
      let (p, k, i, below, m, reader) = v.known c h (ground (arith, v.below c h)) in
      (p, k, i, omega arith, ground arith, inr reader);
  agree = λ p i k c reader. elim reader [
    | inl e ↦ absurd cc
    | inr there ↦
        let (below, le) =
          Has-IsTask j s.fresh (public_reader p i k c) s.tasks sound.started there in
        let (small, own) = v.agree p i k c there in (ground arith, λ d m. own d (ground arith))
  ];
}

-- The next number is given out, and announced.
pub numbered-Keeps :
    {n : ℕ} (s : Server) (p : ℕ) → Keeps n s (numbered s p ((s.infos p).next_conn_id + 1))
numbered-Keeps s p =
    let k = (s.infos p).next_conn_id + 1 in
    let i = record (s.infos p) { next_conn_id = k } in
    let t = record s { infos = update s.infos p i } in
    Keeps-trans s t (numbered s p k) (Keeps-info s p i refl (omega arith))
      (Keeps-write t (s.infos p).conn (layout (bare_frame Proto.new_conn k)))

-- The outside connection `n` does not stay.
pub Tidy-closed :
    {outs : ℕ → Type 0} {n : ℕ} (s : Server)
    → s.net.is_open n ≡ false
    → Tidy outs (suc n) s
    → Tidy (λ c. (c ≡ n) ⊎ outs c) (suc n) s
Tidy-closed {n = n} s shut v = record {
  below = λ c h. elim h [ inl e ↦ omega (arith, e) | inr old ↦ v.below c old ];
  known = λ c h o. elim h [ inl e ↦ absurd (ground (arith, e)) | inr old ↦ v.known c old o ];
  agree = v.agree;
}

-- It is put into the map under a number that no goroutine has, and is read.
pub Tidy-stored :
    {outs : ℕ → Type 0} {n : ℕ} (t : Server) (p k : ℕ) (id : Bytes)
    → Tidy outs n t
    → p < t.fresh
    → ((q : ℕ) (name : Bytes) (i c : ℕ) → Has (public_reader q name i c) t.tasks → q ≡ p → i ≢ k)
    → k ≤ (t.infos p).next_conn_id
    → Tidy
        (λ c. (c ≡ n) ⊎ outs c)
        (suc n)
        (record t {
          infos =
              update t.infos p (record (t.infos p) { conn_map = insert k n (t.infos p).conn_map });
          tasks = public_reader p id k n ∷ t.tasks;
        })
Tidy-stored {outs} {n} t p k id v there unread le = record {
  below = λ c h. elim h [ inl e ↦ omega (arith, e) | inr old ↦ omega (arith, v.below c old) ];
  known = λ c h o. elim h [
    | inl e ↦ (
      p,
      k,
      id,
      there,
      ground (arith, e, lookup-insert k k n (t.infos p).conn_map),
      inl (ap (public_reader p id k) (sym e)),
    )
    | inr old ↦
        let (q, i, name, below, m, reader) = v.known c old o in
        (
          q,
          i,
          name,
          below,
          ground (arith, m, unread q name i c reader, lookup-insert k i n (t.infos p).conn_map),
          inr reader,
        )
  ];
  agree = λ q name i c reader. elim reader [
    | inl e ↦
        let at : p ≡ q = cc e in
        let same : k ≡ i = cc e in
        let it : n ≡ c = cc e in
        (
          ground (arith, le, at, same),
          λ d m. ground (arith, m, at, same, it, lookup-insert k i n (t.infos p).conn_map),
        )
    | inr old ↦
        let (small, own) = v.agree q name i c old in
        (
          ground (arith, small),
          λ d m.
              own d (
                ground (arith, m, unread q name i c old, lookup-insert k i n (t.infos p).conn_map)),
        )
  ];
}

Has-without : (t x : Task) (ts : List Task) (h : Has t ts) → Has x (without t ts h) → Has x ts
Has-without t x [] h there = there
Has-without t x (u ∷ us) (inl e) there = inr there
Has-without t x (u ∷ us) (inr h) (inl e) = inl e
Has-without t x (u ∷ us) (inr h) (inr there) = inr (Has-without t x us h there)

without-Has :
    (t x : Task) (ts : List Task) (h : Has t ts) → x ≢ t → Has x ts → Has x (without t ts h)
without-Has t x [] h ne there = there
without-Has t x (u ∷ us) (inl e) ne (inl e') = absurd (ne (cc (e, e')))
without-Has t x (u ∷ us) (inl e) ne (inr there) = there
without-Has t x (u ∷ us) (inr h) ne (inl e) = inl e
without-Has t x (u ∷ us) (inr h) ne (inr there) = inr (without-Has t x us h ne there)

-- A goroutine ends whose number is in the map no longer.
pub Tidy-ended :
    {outs : ℕ → Type 0} {n : ℕ} (s : Server) (p k c : ℕ) (id : Bytes)
    (there : Has (public_reader p id k c) s.tasks)
    → lookup k (s.infos p).conn_map ≡ none
    → Tidy outs n s
    → Tidy outs n (record s { tasks = without (public_reader p id k c) s.tasks there })
Tidy-ended s p k c id there gone v =
    let task = public_reader p id k c in
    record {
      below = v.below;
      known = λ d h o.
          let (q, i, name, below, m, reader) = v.known d h o in
          let other : public_reader q name i d ≢ task = λ e.
            let at : q ≡ p = cc e in let same : i ≡ k = cc e in ground (arith, at, same, m, gone) in
          (
            q,
            i,
            name,
            below,
            m,
            without-Has task (public_reader q name i d) s.tasks there other reader,
          );
      agree = λ q name i d reader.
          v.agree q name i d (Has-without task (public_reader q name i d) s.tasks there reader);
    }
