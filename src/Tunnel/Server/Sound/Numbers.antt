-- ===== src/Tunnel/Server/Sound/Numbers.antt =====
-- The number of an outside connection, its announcement and its entry in the map keep a sound state.
use ngp_mtls.Prelude.{
  ℕ, suc, ◌+◌, ◌≤◌, ◌<◌, ◌≡◌, ◌≢◌, refl, ◌⊎◌, inl, inr, Bool-cases, none, List, [], ◌∷◌, ◌++◌, ◌^◌,
  sym, insert, lookup-insert, beq_refl, nat_eq, bytes_eq, ◌==◌, update, arith,
}
use ngp_mtls.Tunnel.Net.{write}
use ngp_mtls.Tunnel.Server.{Server, ClientInfo}
use ngp_mtls.Tunnel.Server.Public.Handle.{numbered, IsCounted, IsCounted-count}
use ngp_mtls.Tunnel.Server.Sound.{Owner, control, mapped, listener, Uses, IsSound}
use ngp_mtls.Tunnel.Server.Sound.Owners.{IsOwned-sub, IsOwned-add}
use ngp_mtls.Tunnel.Framed.{IsFramed, IsFramed-same, write-IsFramed, write-IsFramed_other}
use ngp_mtls.Tunnel.Protocol.{Speaks, Announced, Speaks-count, Speaks-new, Speaks-store}
use ngp_mtls.Proto
use ngp_mtls.Proto.{Frame, bare_frame}
use ngp_mtls.Proto.RoundTrip.{layout, bare_frame-IsSendable}
use ngp_mtls.Tunnel.Server.Sound.Actions.{IsSound-later}
use ngp_mtls.Tunnel.Server.Sound.Updates.{IsSound-update}

module _ {j n : ℕ} (s : Server) (v : IsSound j n s) where
  -- A number is given out for a client, and announced to it.
  abbrev next_id : ℕ → ℕ
  next_id p = (s.infos p).next_conn_id + 1

  announced_write :
      (p : ℕ) (Q : List Frame → Type 0)
      → p < s.fresh
      → j + 1 < 2 ^ 32
      → ((write (s.infos p).conn (layout (bare_frame Proto.new_conn (next_id p))) s.net).0 ≢ none
          → (fs : List Frame) → Speaks (s.infos p) fs
          → Q fs)
      → ((fs : List Frame)
          → Speaks (s.infos p) fs
          → Q (fs ++ bare_frame Proto.new_conn (next_id p) ∷ []))
      → IsFramed Q (numbered s p (next_id p)).net (s.infos p).conn
  announced_write p Q below small keep more =
      write-IsFramed s.net (s.infos p).conn (bare_frame Proto.new_conn (next_id p))
        (v.streams p below) keep more
        (bare_frame-IsSendable Proto.new_conn (next_id p) (omega arith)
          (omega (arith, v.conn_ids p below)))

  pub IsSound-numbered :
      (p : ℕ) → p < s.fresh → j + 1 < 2 ^ 32 → IsSound (suc j) n (numbered s p (next_id p))
  IsSound-numbered p below small =
      IsSound-update s (IsSound-later j (suc j) n n s (omega arith) (omega arith) v) p info
        after.net refl refl (omega (arith, v.conn_ids p below))
        (IsCounted-count (s.infos p) (v.counted p below))
        (IsOwned-sub v.owners after n (omega arith) same)
        (λ q h ne.
          write-IsFramed_other s.net (s.infos p).conn (s.infos q).conn _
            (λ e. ne (
              sym (
                cc
                  (v.owners.unique (control q) (control p) (s.infos p).conn (h, e) (below, refl)))))
            (v.streams q h) (λ fs x. x))
        (λ h.
          announced_write p (Speaks info) below small
            (λ _. Speaks-count (s.infos p) (next_id p) (omega arith))
            (λ fs x. (Speaks-new (s.infos p) (next_id p) (omega arith) fs x).0))
    where
      info : ClientInfo
      info = record (s.infos p) { next_conn_id = next_id p }

      after : Server
      after = numbered s p (next_id p)

      same : (o : Owner) (c : ℕ) → Uses after o c → Uses s o c
      same (control q) c u = ground arith
      same (mapped q i) c u = ground arith
      same (listener q) c u = ground arith

  pub IsFramed-numbered :
      (p : ℕ)
      → p < s.fresh
      → j + 1 < 2 ^ 32
      → (write (s.infos p).conn (layout (bare_frame Proto.new_conn (next_id p))) s.net).0 ≡ none
      → IsFramed
          (Announced (next_id p) ((numbered s p (next_id p)).infos p))
          (numbered s p (next_id p)).net
          (s.infos p).conn
  IsFramed-numbered p below small sent = rw (beq_refl p) (
      announced_write p (Announced (next_id p) (record (s.infos p) { next_conn_id = next_id p }))
        below small (λ failed. absurd (failed sent))
        (Speaks-new (s.infos p) (next_id p) (omega arith)))

  -- The outside connection `n` is put into the map, under a number that was given out.
  pub IsSound-store :
      (p k : ℕ)
      → p < s.fresh
      → k ≤ (s.infos p).next_conn_id
      → IsFramed (Announced k (s.infos p)) s.net (s.infos p).conn
      → IsSound j (suc n) (record s {
        infos =
            update s.infos p (record (s.infos p) { conn_map = insert k n (s.infos p).conn_map });
      })
  IsSound-store p k below le told =
      IsSound-update s (IsSound-later j j n (suc n) s (omega arith) (omega arith) v) p info s.net
        refl refl (v.conn_ids p below) counted
        (IsOwned-add v.owners (record s { infos = update s.infos p info }) (mapped p k) more)
        (λ q h _. v.streams q h)
        (λ h.
          IsFramed-same s.net s.net (s.infos p).conn told (Speaks-store (s.infos p) k n) refl refl)
    where
      info : ClientInfo
      info = record (s.infos p) { conn_map = insert k n (s.infos p).conn_map }

      counted : IsCounted info
      counted = record {
        given = λ i c h.
            ground (arith, lookup-insert k i n (s.infos p).conn_map, (v.counted p below).given i c);
      }

      more :
          (o : Owner) (c : ℕ)
          → Uses (record s { infos = update s.infos p info }) o c
          → Uses s o c ⊎ ((o ≡ mapped p k) × (c ≡ n))
      more (control q) c u = inl (ground arith)
      more (listener q) c u = inl (ground arith)
      more (mapped q i) c u = elim (Bool-cases (p == q)) [
        | inr differ ↦ inl (ground arith)
        | inl same ↦ elim (Bool-cases (k == i)) [
          | inr other_key ↦ inl (ground (arith, lookup-insert k i n (s.infos p).conn_map))
          | inl same_key ↦
              let at : q ≡ p = ground arith in
              let key : i ≡ k = ground arith in
              inr (rw (at, key) refl, ground (arith, lookup-insert k i n (s.infos p).conn_map))
        ]
      ]
