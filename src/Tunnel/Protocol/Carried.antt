-- ===== src/Tunnel/Protocol/Carried.antt =====
-- The bytes that a sequence of frames carries for one connection.
use ngp_mtls.Prelude.{
  All, arith, ◌≢◌, ltb, length, false, ℕ, ◌≡◌, refl, ap, sym, ◌∙◌, ◌&&◌, List, [], ◌∷◌, ◌++◌,
  append_assoc, Bytes, ◌==◌, if◌then◌else◌,
}
use ngp_mtls.Proto
use ngp_mtls.Proto.{Frame}

-- The bytes that a frame carries for `k`.
abbrev pub carried : ℕ → Frame → Bytes
carried k f = if f.frame_type == Proto.data_type && f.conn_id == k then f.payload else []

abbrev pub bytes_for : ℕ → List Frame → Bytes
bytes_for k [] = []
bytes_for k (f ∷ fs) = carried k f ++ bytes_for k fs

pub bytes_for-append :
    (k : ℕ) (fs gs : List Frame) → bytes_for k (fs ++ gs) ≡ bytes_for k fs ++ bytes_for k gs
bytes_for-append k [] gs = refl
bytes_for-append k (f ∷ fs) gs =
    ap (λ z. carried k f ++ z) (bytes_for-append k fs gs)
    ∙ sym (append_assoc (carried k f) (bytes_for k fs) (bytes_for k gs))

pub none_carried : (b : Bytes) → ltb 0 (length b) ≡ false → b ≡ []
none_carried [] h = refl
none_carried (x ∷ b) h = absurd (ground arith)

pub nothing_carried : (k : ℕ) (fs : List Frame) → All (λ f. f.conn_id ≢ k) fs → bytes_for k fs ≡ []
nothing_carried k [] v = refl
nothing_carried k (f ∷ fs) (ne, v) =
    let none : carried k f ≡ [] = ground arith in rw none (nothing_carried k fs v)
