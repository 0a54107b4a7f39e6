-- ===== src/Tunnel/Protocol.antt =====
-- What the server says to a client on its control connection, as a grammar: NEW_CONN with numbers
-- that grow, DATA for numbers that NEW_CONN has announced, and CLOSE_CONN.
pub mod Grammar
pub mod Carried
pub mod Announced
use ngp_mtls.Prelude.{
  Has, ℕ, ◌≤◌, ◌<◌, ◌≡◌, refl, inl, inr, none, some, List, [], ◌∷◌, ◌++◌, Bytes, All, lookup,
  insert, lookup-insert, Bool-cases, ◌==◌, nat_eq, arith,
}
use ngp_mtls.Proto
use ngp_mtls.Proto.{Frame, bare_frame, data_frame}
use ngp_mtls.Tunnel.Server.{ClientInfo}

-- Frames in the order in which they are sent, and the numbers that they announce.
pub data IsOrdered : List ℕ → List Frame → Type 0 where
  silent : IsOrdered [] []
  announces :
      {known : List ℕ} {fs : List Frame} (k : ℕ)
      → IsOrdered known fs
      → All (λ i. i < k) known
      → IsOrdered (k ∷ known) (fs ++ bare_frame Proto.new_conn k ∷ [])
  relays :
      {known : List ℕ} {fs : List Frame} (k : ℕ) (b : Bytes)
      → IsOrdered known fs
      → Has k known
      → IsOrdered known (fs ++ data_frame k b ∷ [])
  ends :
      {known : List ℕ} {fs : List Frame} (k : ℕ)
      → IsOrdered known fs
      → IsOrdered known (fs ++ bare_frame Proto.close k ∷ [])

-- The frames sent to a client whose record is `info`: its connections have been announced.
pub record Speaks (info : ClientInfo) (fs : List Frame) : Type 0 where
  pub known : List ℕ
  pub ordered : IsOrdered known fs
  pub given : All (λ k. k ≤ info.next_conn_id) known
  pub mapped : (k c : ℕ) → lookup k info.conn_map ≡ some c → Has k known

-- The same, and `k` is announced.
abbrev pub Announced : ℕ → ClientInfo → List Frame → Type 0
Announced k info fs = (v : Speaks info fs) × Has k v.known

-- The record changes, and no connection comes to the map.
pub Speaks-same :
    (info info' : ClientInfo)
    → info.next_conn_id ≡ info'.next_conn_id
    → ((k c : ℕ) → lookup k info'.conn_map ≡ some c → lookup k info.conn_map ≡ some c)
    → (fs : List Frame) → Speaks info fs
    → Speaks info' fs
Speaks-same info info' same fewer fs v = record {
  known = v.known;
  ordered = v.ordered;
  given = rw (← same) v.given;
  mapped = λ k c h. v.mapped k c (fewer k c h);
}

pub Speaks-close :
    (k : ℕ) (info : ClientInfo) (fs : List Frame)
    → Speaks info fs
    → Speaks info (fs ++ bare_frame Proto.close k ∷ [])
Speaks-close k info fs v = record {
  known = v.known;
  ordered = ends k v.ordered;
  given = v.given;
  mapped = v.mapped;
}

pub Speaks-data :
    (k c : ℕ) (b : Bytes) (info : ClientInfo)
    → lookup k info.conn_map ≡ some c
    → (fs : List Frame) → Speaks info fs
    → Speaks info (fs ++ data_frame k b ∷ [])
Speaks-data k c b info there fs v = record {
  known = v.known;
  ordered = relays k b v.ordered (v.mapped k c there);
  given = v.given;
  mapped = v.mapped;
}

All-below : (m k : ℕ) (ks : List ℕ) → All (λ i. i ≤ m) ks → m < k → All (λ i. i < k) ks
All-below m k [] v h = tt
All-below m k (i ∷ ks) (v, vs) h = (omega arith, All-below m k ks vs h)

All-within : (m k : ℕ) (ks : List ℕ) → All (λ i. i ≤ m) ks → m ≤ k → All (λ i. i ≤ k) ks
All-within m k [] v h = tt
All-within m k (i ∷ ks) (v, vs) h = (omega arith, All-within m k ks vs h)

-- A number is given out.
pub Speaks-count :
    (info : ClientInfo) (k : ℕ)
    → info.next_conn_id ≤ k
    → (fs : List Frame) → Speaks info fs
    → Speaks (record info { next_conn_id = k }) fs
Speaks-count info k le fs v = record {
  known = v.known;
  ordered = v.ordered;
  given = All-within info.next_conn_id k v.known v.given le;
  mapped = v.mapped;
}

-- It is announced.
pub Speaks-new :
    (info : ClientInfo) (k : ℕ)
    → info.next_conn_id < k
    → (fs : List Frame) → Speaks info fs
    → Announced k (record info { next_conn_id = k }) (fs ++ bare_frame Proto.new_conn k ∷ [])
Speaks-new info k lt fs v = (
  record {
    known = k ∷ v.known;
    ordered = announces k v.ordered (All-below info.next_conn_id k v.known v.given lt);
    given = (omega arith, All-within info.next_conn_id k v.known v.given (omega arith));
    mapped = λ i c h. inr (v.mapped i c h);
  },
  inl refl,
)

-- An announced connection comes to the map.
pub Speaks-store :
    (info : ClientInfo) (k conn : ℕ) (fs : List Frame)
    → Announced k info fs
    → Speaks (record info { conn_map = insert k conn info.conn_map }) fs
Speaks-store info k conn fs (v, there) = record {
  known = v.known;
  ordered = v.ordered;
  given = v.given;
  mapped = λ i c h. elim (Bool-cases (k == i)) [
    | inl same ↦ let at : k ≡ i = ground arith in rw (← at) there
    | inr differ ↦ v.mapped i c (ground (arith, lookup-insert k i conn info.conn_map))
  ];
}

-- Nothing is said to a client that has no connection.
pub Speaks-nothing : (info : ClientInfo) → info.conn_map ≡ [] → Speaks info []
unfolding lookup
Speaks-nothing info none_mapped = record {
  known = [];
  ordered = silent;
  given = tt;
  mapped = λ k c h. absurd (cc (rw none_mapped at h));
}
