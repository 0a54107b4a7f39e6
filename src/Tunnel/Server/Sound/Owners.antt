-- ===== src/Tunnel/Server/Sound/Owners.antt =====
-- Uses that go, and a use that comes.
use ngp_mtls.Prelude.{ℕ, suc, ◌≤◌, ◌≡◌, ◌⊎◌, inl, inr, sym, ◌∙◌, arith}
use ngp_mtls.Tunnel.Server.{Server}
use ngp_mtls.Tunnel.Server.Sound.{Owner, Uses, IsOwned}

module _ {n : ℕ} {s : Server} (v : IsOwned n s) (s' : Server) where
  pub IsOwned-sub :
      (n' : ℕ) → n ≤ n' → ((o : Owner) (c : ℕ) → Uses s' o c → Uses s o c) → IsOwned n' s'
  IsOwned-sub n' le sub = record {
    used = λ o c u. omega (arith, v.used o c (sub o c u));
    unique = λ o o' c u u'. v.unique o o' c (sub o c u) (sub o' c u');
  }

  pub IsOwned-add :
      (new : Owner)
      → ((o : Owner) (c : ℕ) → Uses s' o c → Uses s o c ⊎ ((o ≡ new) × (c ≡ n)))
      → IsOwned (suc n) s'
  IsOwned-add new add = record {
    used = λ o c u. elim (add o c u) [
      | inl old ↦ omega (arith, v.used o c old)
      | inr (_, e) ↦ omega arith
    ];
    unique = λ o o' c u u'. elim (add o c u) [
      | inl old ↦ elim (add o' c u') [
        | inl old' ↦ v.unique o o' c old old'
        | inr (_, e) ↦ absurd (omega (arith, v.used o c old))
      ]
      | inr (e, at) ↦ elim (add o' c u') [
        | inl old' ↦ absurd (omega (arith, v.used o' c old'))
        | inr (e', _) ↦ e ∙ sym e'
      ]
    ];
  }
