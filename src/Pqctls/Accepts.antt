-- ===== src/Pqctls/Accepts.antt =====
-- Which handshakes `Accept` lets through.
use ngp_mtls.Prelude.{
  ℕ, ◌≡◌, refl, ap, ◌⊎◌, inl, inr, Bool-cases, true, Option, none, some, List, [], ◌∷◌, All, false,
  ◌++◌, Bytes, codes, ℤ, positive, arith,
}
use ngp_mtls.Pqctls.{
  starts, contains, verify_pqc_algorithms, Attempt, shaken, wants_more, broken, Handle, Accepted,
  accepted, not_pqc, accept_failed, waiting, dropped, accept_loop,
}

-- The name has `p` somewhere in it.
abbrev pub Within : Bytes → Bytes → Type 0
Within p s = (a : Bytes) × (b : Bytes) × (s ≡ a ++ (p ++ b))

starts_sound : (p s : Bytes) → starts p s ≡ true → (b : Bytes) × (s ≡ p ++ b)
starts_sound [] s h = (s, refl)
starts_sound (a ∷ p) [] h = absurd (cc h)
starts_sound (a ∷ p) (c ∷ s) h =
    let same : a ≡ c = ground arith in
    let (b, e) = starts_sound p s (ground arith) in (b, rw (same, e) refl)

contains_sound : (p s : Bytes) → contains p s ≡ true → Within p s
contains_sound p [] h = let (b, e) = starts_sound p [] h in ([], b, e)
contains_sound p (c ∷ s) h = elim (Bool-cases (starts p (c ∷ s))) [
  | inl here ↦ let (b, e) = starts_sound p (c ∷ s) here in ([], b, e)
  | inr later ↦ let (a, b, e) = contains_sound p s (ground arith) in (c ∷ a, b, ap (◌∷◌ c) e)
]

-- The name of a group that the check knows.
abbrev pub IsKnown : Bytes → Type 0
IsKnown name =
    Within (codes "MLKEM") name
    ⊎ (Within (codes "ML-KEM") name
        ⊎ (Within (codes "KYBER") name
            ⊎ (Within (codes "mlkem") name ⊎ Within (codes "ml-kem") name)))

verify_pqc_algorithms_sound :
    (group : ℤ) (name : Option Bytes)
    → verify_pqc_algorithms group name ≡ true
    → (text : Bytes) × (name ≡ some text) × (positive group ≡ true) × IsKnown text
unfolding verify_pqc_algorithms
verify_pqc_algorithms_sound group none h = absurd (cc h)
verify_pqc_algorithms_sound group (some text) h = (text, refl, ground arith, known)
  where
    known : IsKnown text
    known = elim (Bool-cases (contains (codes "MLKEM") text)) [
      | inl e ↦ inl (contains_sound (codes "MLKEM") text e)
      | inr e1 ↦ inr (elim (Bool-cases (contains (codes "ML-KEM") text)) [
        | inl e ↦ inl (contains_sound (codes "ML-KEM") text e)
        | inr e2 ↦ inr (elim (Bool-cases (contains (codes "KYBER") text)) [
          | inl e ↦ inl (contains_sound (codes "KYBER") text e)
          | inr e3 ↦ inr (elim (Bool-cases (contains (codes "mlkem") text)) [
            | inl e ↦ inl (contains_sound (codes "mlkem") text e)
            | inr e4 ↦ inr (contains_sound (codes "ml-kem") text (ground arith))
          ])
        ])
      ])
    ]

-- All attempts before `a` wanted more.
abbrev pub Decided : Attempt → List Attempt → Type 0
Decided a [] = ⊥
Decided a (x ∷ rest) = (x ≡ a) ⊎ ((x ≡ wants_more) × Decided a rest)

-- The loop has let a handshake through, refused it for its algorithms, or met another error.
abbrev pub Passed : List Attempt → Type 0
Passed attempts =
    (group : ℤ) × (text : Bytes) × Decided (shaken group (some text)) attempts
    × (positive group ≡ true)
    × IsKnown text

abbrev pub Unknown : List Attempt → Type 0
Unknown attempts =
    (group : ℤ) × (name : Option Bytes) × Decided (shaken group name) attempts
    × (verify_pqc_algorithms group name ≡ false)

-- What the loop may end with.
abbrev pub Ended : List Attempt → Handle → Accepted → Type 0
Ended attempts h out =
    ((out ≡ waiting h) × All (λ a. a ≡ wants_more) attempts)
    ⊎ (((out ≡ accepted h) × Passed attempts)
        ⊎ (((out ≡ not_pqc (dropped h)) × Unknown attempts)
            ⊎ ((code : ℕ) × (out ≡ accept_failed code (dropped h))
                × Decided (broken code) attempts)))

-- Whatever OpenSSL answers, the loop of `Accept` is still waiting, with nothing freed or closed,
-- while every attempt wanted more; or its first other attempt decides. If that one negotiated a
-- group whose number is positive and whose name has one of the five texts in it, the connection is
-- returned as it was; otherwise an error is returned, with the SSL object freed and the connection
-- closed.
pub accept_loop_lem :
    (attempts : List Attempt) (h : Handle) → Ended attempts h (accept_loop attempts h)
unfolding accept_loop
accept_loop_lem [] h = inl (refl, tt)
accept_loop_lem (shaken group name ∷ rest) h =
    elim (Bool-cases (verify_pqc_algorithms group name)) [
      | inl good ↦
          let (text, named, some_group, known) = verify_pqc_algorithms_sound group name good in
          inr (inl (ground arith, (group, text, inl (ap (shaken group) named), some_group, known)))
      | inr bad ↦ inr (inr (inl (ground arith, (group, name, inl refl, bad))))
    ]
accept_loop_lem (wants_more ∷ rest) h = elim (accept_loop_lem rest h) [
  | inl (still, more) ↦ inl (still, (refl, more))
  | inr (inl (got, (group, text, there, some_group, known))) ↦
      inr (inl (got, (group, text, inr (refl, there), some_group, known)))
  | inr (inr (inl (refused, (group, name, there, bad)))) ↦
      inr (inr (inl (refused, (group, name, inr (refl, there), bad))))
  | inr (inr (inr (code, failed, there))) ↦ inr (inr (inr (code, failed, inr (refl, there))))
]
accept_loop_lem (broken code ∷ rest) h = inr (inr (inr (code, refl, inl refl)))
