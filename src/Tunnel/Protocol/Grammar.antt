-- ===== src/Tunnel/Protocol/Grammar.antt =====
-- The order of what the server says to a client, read off any place of the sequence.
use ngp_mtls.Prelude.{
  Has, ℕ, ◌<◌, ◌≡◌, ◌≢◌, refl, ◌⊎◌, inl, inr, List, [], ◌∷◌, ◌++◌, All, All-append, arith,
}
use ngp_mtls.Proto
use ngp_mtls.Proto.{Frame, bare_frame, data_frame}
use ngp_mtls.Tunnel.Protocol.{IsOrdered, silent, announces, relays, ends}

-- A frame that announces no number from `k` on.
abbrev pub Older : ℕ → Frame → Type 0
Older k g = (g.frame_type ≢ Proto.new_conn) ⊎ (g.conn_id < k)

-- What `f` may be after the frames `xs`: NEW_CONN with a number that is larger than all that were
-- announced before, DATA for a number that was announced, or CLOSE_CONN.
abbrev pub Allowed : List Frame → Frame → Type 0
Allowed xs f =
    ((f ≡ bare_frame Proto.new_conn f.conn_id) × All (Older f.conn_id) xs)
    ⊎ ((f.frame_type ≡ Proto.data_type) × Has (bare_frame Proto.new_conn f.conn_id) xs)
    ⊎ (f ≡ bare_frame Proto.close f.conn_id)

Has-left : {A : Type 0} (x : A) (xs ys : List A) → Has x xs → Has x (xs ++ ys)
Has-left x [] ys h = absurd h
Has-left x (y ∷ xs) ys (inl e) = inl e
Has-left x (y ∷ xs) ys (inr h) = inr (Has-left x xs ys h)

Has-last : {A : Type 0} (x : A) (xs : List A) → Has x (xs ++ x ∷ [])
Has-last x [] = inl refl
Has-last x (y ∷ xs) = inr (Has-last x xs)

-- A place in a sequence is its last one, or stands before it.
pub snoc-split :
    {A : Type 0} (fs : List A) (g : A) (xs : List A) (f : A) (ys : List A)
    → fs ++ g ∷ [] ≡ xs ++ f ∷ ys
    → ((xs ≡ fs) × (f ≡ g) × (ys ≡ []))
      ⊎ ((zs : List A) × (fs ≡ xs ++ f ∷ zs) × (ys ≡ zs ++ g ∷ []))
snoc-split [] g [] f ys e = inl (refl, cc e, cc e)
snoc-split [] g (x ∷ []) f ys e = absurd (cc e)
snoc-split [] g (x ∷ y ∷ xs) f ys e = absurd (cc e)
snoc-split (h ∷ fs) g [] f ys e = inr (fs, cc e, cc e)
snoc-split (h ∷ fs) g (x ∷ xs) f ys e = elim (snoc-split fs g xs f ys (cc e)) [
  | inl (same, last, over) ↦ inl (cc (e, same), last, over)
  | inr (zs, before, rest) ↦ inr (zs, cc (e, before), rest)
]

-- What is known was announced.
known_announced :
    {known : List ℕ} {fs : List Frame} (k : ℕ)
    → IsOrdered known fs
    → Has k known
    → Has (bare_frame Proto.new_conn k) fs
known_announced k silent h = absurd h
known_announced k (announces {fs = fs} j o above) (inl e) =
    rw (← e) (Has-last (bare_frame Proto.new_conn j) fs)
known_announced k (announces {fs = fs} j o above) (inr h) = Has-left _ fs _ (known_announced k o h)
known_announced k (relays {fs = fs} j b o there) h = Has-left _ fs _ (known_announced k o h)
known_announced k (ends {fs = fs} j o) h = Has-left _ fs _ (known_announced k o h)

-- What was announced is known.
all-Older :
    {known : List ℕ} {fs : List Frame} (k : ℕ)
    → IsOrdered known fs
    → All (λ i. i < k) known
    → All (Older k) fs
all-Older k silent v = tt
all-Older k (announces {fs = fs} j o above) (lt, v) =
    All-append (Older k) fs _ (all-Older k o v) (inr lt, tt)
all-Older k (relays {fs = fs} j b o there) v =
    All-append (Older k) fs _ (all-Older k o v) (inl (λ h. omega (arith, h)), tt)
all-Older k (ends {fs = fs} j o) v =
    All-append (Older k) fs _ (all-Older k o v) (inl (λ h. omega (arith, h)), tt)

pub ordered-Allowed :
    {known : List ℕ} {fs : List Frame} (xs : List Frame) (f : Frame) (ys : List Frame)
    → IsOrdered known fs
    → fs ≡ xs ++ f ∷ ys
    → Allowed xs f
ordered-Allowed [] f ys silent e = absurd (cc e)
ordered-Allowed (x ∷ xs) f ys silent e = absurd (cc e)
ordered-Allowed xs f ys (announces {fs = fs} k o above) e =
    elim (snoc-split fs (bare_frame Proto.new_conn k) xs f ys e) [
      | inr (zs, before, rest) ↦ ordered-Allowed xs f zs o before
      | inl (all, last, over) ↦ rw (all, last) (inl (refl, all-Older k o above))
    ]
ordered-Allowed xs f ys (relays {fs = fs} k b o there) e =
    elim (snoc-split fs (data_frame k b) xs f ys e) [
      | inr (zs, before, rest) ↦ ordered-Allowed xs f zs o before
      | inl (all, last, over) ↦ rw (all, last) (inr (inl (refl, known_announced k o there)))
    ]
ordered-Allowed xs f ys (ends {fs = fs} k o) e =
    elim (snoc-split fs (bare_frame Proto.close k) xs f ys e) [
      | inr (zs, before, rest) ↦ ordered-Allowed xs f zs o before
      | inl (all, last, over) ↦ rw (all, last) (inr (inr refl))
    ]
