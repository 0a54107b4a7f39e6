-- ===== src/Tunnel/Protocol/Announced.antt =====
-- What the server says before and after it announces a connection.
use ngp_mtls.Prelude.{
  Has, ℕ, ◌<◌, ◌≡◌, ◌≢◌, refl, ◌⊎◌, inl, inr, List, [], ◌∷◌, ◌++◌, All, All-append, arith,
}
use ngp_mtls.Proto
use ngp_mtls.Proto.{Frame, bare_frame, data_frame}
use ngp_mtls.Tunnel.Protocol.{IsOrdered, silent, announces, relays, ends}
use ngp_mtls.Tunnel.Protocol.Carried.{bytes_for, bytes_for-append}
use ngp_mtls.Tunnel.Protocol.Grammar.{snoc-split}

Has-below : (k i : ℕ) (ks : List ℕ) → All (λ m. m < k) ks → Has i ks → i < k
Has-below k i [] v h = absurd h
Has-below k i (m ∷ ks) (v, vs) (inl e) = rw (← e) v
Has-below k i (m ∷ ks) (v, vs) (inr h) = Has-below k i ks vs h

-- A frame that does not announce `k`.
abbrev pub Other : ℕ → Frame → Type 0
Other k f = (f.conn_id ≢ k) ⊎ (f.frame_type ≢ Proto.new_conn)

-- A frame that does not close the connection `k`.
abbrev pub Open : ℕ → Frame → Type 0
Open k f = (f.conn_id ≢ k) ⊎ (f.frame_type ≢ Proto.close)

-- Once `k` is announced, it is known, and is not announced again.
pub announced_once :
    {known : List ℕ} {fs : List Frame} (k : ℕ) (xs ys : List Frame)
    → IsOrdered known fs
    → fs ≡ xs ++ bare_frame Proto.new_conn k ∷ ys
    → Has k known × All (Other k) ys
announced_once k [] ys silent e = absurd (cc e)
announced_once k (x ∷ xs) ys silent e = absurd (cc e)
announced_once k xs ys (announces {known = known} {fs = fs} i o above) e =
    elim (snoc-split fs _ xs _ ys e) [
      | inl (all, last, over) ↦ let same : i ≡ k = cc last in (inl same, rw over tt)
      | inr (zs, before, rest) ↦
          let (there, others) = announced_once k xs zs o before in
          let lt = Has-below i k known above there in
          (
            inr there,
            rw rest (All-append (Other k) zs _ others (inl (λ h. omega (arith, h, lt)), tt)),
          )
    ]
announced_once k xs ys (relays {fs = fs} i b o there) e = elim (snoc-split fs _ xs _ ys e) [
  | inl (all, last, over) ↦ absurd (cc last)
  | inr (zs, before, rest) ↦
      let (known_k, others) = announced_once k xs zs o before in
      (known_k, rw rest (All-append (Other k) zs _ others (inr (λ h. omega (arith, h)), tt)))
]
announced_once k xs ys (ends {fs = fs} i o) e = elim (snoc-split fs _ xs _ ys e) [
  | inl (all, last, over) ↦ absurd (cc last)
  | inr (zs, before, rest) ↦
      let (known_k, others) = announced_once k xs zs o before in
      (known_k, rw rest (All-append (Other k) zs _ others (inr (λ h. omega (arith, h)), tt)))
]

bytes_for-snoc :
    (k : ℕ) (fs : List Frame) (f : Frame)
    → bytes_for k fs ≡ []
    → bytes_for k (f ∷ []) ≡ []
    → bytes_for k (fs ++ f ∷ []) ≡ []
bytes_for-snoc k fs f none_yet none_now = rw (bytes_for-append k fs (f ∷ []), none_yet) none_now

-- Nothing is carried for a number that is not known.
bytes_for_unknown :
    {known : List ℕ} {fs : List Frame} (k : ℕ)
    → IsOrdered known fs
    → All (λ i. i < k) known
    → bytes_for k fs ≡ []
bytes_for_unknown k silent v = refl
bytes_for_unknown k (announces {fs = fs} i o above) (lt, v) =
    bytes_for-snoc k fs _ (bytes_for_unknown k o v) refl
bytes_for_unknown k (relays {known = known} {fs = fs} i b o there) v =
    let lt = Has-below k i known v there in
    bytes_for-snoc k fs (data_frame i b) (bytes_for_unknown k o v) (ground arith)
bytes_for_unknown k (ends {fs = fs} i o) v = bytes_for-snoc k fs _ (bytes_for_unknown k o v) refl

-- Before `k` is announced, nothing is carried for it.
pub announced_first :
    {known : List ℕ} {fs : List Frame} (k : ℕ) (xs ys : List Frame)
    → IsOrdered known fs
    → fs ≡ xs ++ bare_frame Proto.new_conn k ∷ ys
    → bytes_for k xs ≡ []
announced_first k [] ys silent e = absurd (cc e)
announced_first k (x ∷ xs) ys silent e = absurd (cc e)
announced_first k xs ys (announces {fs = fs} i o above) e = elim (snoc-split fs _ xs _ ys e) [
  | inl (all, last, over) ↦
      let same : i ≡ k = cc last in rw all (bytes_for_unknown k o (rw same at above))
  | inr (zs, before, rest) ↦ announced_first k xs zs o before
]
announced_first k xs ys (relays {fs = fs} i b o there) e = elim (snoc-split fs _ xs _ ys e) [
  | inl (all, last, over) ↦ absurd (cc last)
  | inr (zs, before, rest) ↦ announced_first k xs zs o before
]
announced_first k xs ys (ends {fs = fs} i o) e = elim (snoc-split fs _ xs _ ys e) [
  | inl (all, last, over) ↦ absurd (cc last)
  | inr (zs, before, rest) ↦ announced_first k xs zs o before
]
