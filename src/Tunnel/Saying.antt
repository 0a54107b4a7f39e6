-- ===== src/Tunnel/Saying.antt =====
-- What an action adds to what was written to a connection.
use ngp_mtls.Prelude.{
  ℕ, ◌≡◌, ◌≢◌, refl, ap, sym, ◌∙◌, none, List, [], ◌∷◌, ◌++◌, append_assoc, append-nil, Bytes, All,
  All-append, arith,
}
use ngp_mtls.Proto.{Frame}
use ngp_mtls.Proto.RoundTrip.{layout, wire, wire-append, IsSendable}
use ngp_mtls.Tunnel.Net.{Net, write}
use ngp_mtls.Tunnel.Protocol.Carried.{bytes_for, bytes_for-append}

-- Whole frames are added to what was written to `c`, where `c` takes all that is written; for the
-- number `k` they carry the bytes `b k`.
pub record Says (b : ℕ → Bytes) (c : ℕ) (w w' : Net) : Type 0 where
  pub frames : List Frame
  pub sendable : All IsSendable frames
  pub carries : (k : ℕ) → bytes_for k frames ≡ b k
  pub sent : w'.limit c ≡ none → w'.sent c ≡ w.sent c ++ wire frames
  pub limit : w'.limit c ≡ none → w.limit c ≡ none

abbrev pub silence : ℕ → Bytes
silence k = []

pub Says-same :
    (c : ℕ) (w w' : Net) → w'.sent c ≡ w.sent c → w'.limit c ≡ w.limit c → Says silence c w w'
Says-same c w w' sent limit = record {
  frames = [];
  sendable = tt;
  carries = λ k. refl;
  sent = λ h. sent ∙ sym (append-nil (w.sent c));
  limit = λ h. sym limit ∙ h;
}

-- One after the other.
pub Says-trans :
    {b : ℕ → Bytes} (c : ℕ) (w w' w'' : Net)
    → Says silence c w w'
    → Says b c w' w''
    → Says b c w w''
Says-trans c w w' w'' u v = record {
  frames = u.frames ++ v.frames;
  sendable = All-append IsSendable u.frames v.frames u.sendable v.sendable;
  carries = λ k.
      bytes_for-append k u.frames v.frames
      ∙ (ap (λ z. z ++ bytes_for k v.frames) (u.carries k) ∙ v.carries k);
  sent = λ h.
      v.sent h
      ∙ ap (λ z. z ++ wire v.frames) (u.sent (v.limit h))
      ∙ append_assoc (w.sent c) (wire u.frames) (wire v.frames)
      ∙ ap (λ z. w.sent c ++ z) (sym (wire-append u.frames v.frames));
  limit = λ h. u.limit (v.limit h);
}

-- A frame to `c`, which is written whole if the write reports no error.
pub Says-write :
    {b : ℕ → Bytes} (w : Net) (c : ℕ) (f : Frame)
    → IsSendable f
    → (write c (layout f) w).0 ≡ none
    → ((k : ℕ) → bytes_for k (f ∷ []) ≡ b k)
    → Says b c w (write c (layout f) w).1
unfolding write
Says-write w c f sendable fine carries = record {
  frames = f ∷ [];
  sendable = (sendable, tt);
  carries = carries;
  sent = λ h. ground (arith, append-nil (layout f));
  limit = λ h. ground arith;
}

-- A write that fails.
pub Says-write_failed :
    (w : Net) (c : ℕ) (f : Frame)
    → (write c (layout f) w).0 ≢ none
    → Says silence c w (write c (layout f) w).1
unfolding write
Says-write_failed w c f failed = record {
  frames = [];
  sendable = tt;
  carries = λ k. refl;
  sent = λ h. ground (arith, append-nil (w.sent c));
  limit = λ h. ground arith;
}

-- A write to another connection.
pub Says-write_other : (w : Net) (c d : ℕ) (b : Bytes) → d ≢ c → Says silence c w (write d b w).1
unfolding write
Says-write_other w c d b ne = Says-same c w (write d b w).1 (ground arith) (ground arith)

pub Says-as :
    {b b' : ℕ → Bytes} (c : ℕ) (w w' : Net)
    → ((k : ℕ) → b k ≡ b' k)
    → Says b c w w'
    → Says b' c w w'
Says-as c w w' same v = record {
  frames = v.frames;
  sendable = v.sendable;
  carries = λ k. v.carries k ∙ same k;
  sent = v.sent;
  limit = v.limit;
}
