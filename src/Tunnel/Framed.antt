-- ===== src/Tunnel/Framed.antt =====
-- What is written to a control connection is a sequence of whole frames.
use ngp_mtls.Prelude.{
  List, All, ℕ, zero, suc, ◌≤◌, ◌≡◌, ◌≢◌, refl, ap, sym, ◌∙◌, ◌⊎◌, inl, inr, Bool-cases, true,
  false, Option-cases, none, some, if◌then◌else◌, other, closed_conn, [], ◌∷◌, ◌++◌, append_assoc,
  append-nil, Bytes, length, length-append, take, drop, take-append-drop, leb, All-append, arith,
}
use ngp_mtls.Proto.{Frame}
use ngp_mtls.Proto.RoundTrip.{layout, header, wire, wire-append, IsSendable, length-header}
use ngp_mtls.Tunnel.Net.{Net, write, wrote, opened, within}

-- What was written to `c` is a sequence of whole frames, of which `Q` holds; or it breaks off at
-- the limit of what `c` takes, and then nothing more can be written.
pub record IsFramed (Q : List Frame → Type 0) (w : Net) (c : ℕ) : Type 0 where
  pub frames : List Frame
  pub rest : Bytes
  pub sendable : All IsSendable frames
  pub whole : w.sent c ++ rest ≡ wire frames
  pub good : Q frames
  pub cut : (rest ≡ []) ⊎ (w.limit c ≡ some 0)

wire_one : (f : Frame) → wire (f ∷ []) ≡ layout f
wire_one f = append-nil (layout f)

-- One more frame, of which a part is written.
one_more :
    {Q Q' : List Frame → Type 0} (w w' : Net) (c : ℕ) (f : Frame) (some_bytes left : Bytes)
    (v : IsFramed Q w c)
    → ((fs : List Frame) → Q fs → Q' (fs ++ f ∷ []))
    → IsSendable f
    → v.rest ≡ []
    → w'.sent c ≡ w.sent c ++ some_bytes
    → some_bytes ++ left ≡ layout f
    → (left ≡ []) ⊎ (w'.limit c ≡ some 0)
    → IsFramed Q' w' c
one_more w w' c f some_bytes left v more sendable none_left sent split cut = record {
  frames = v.frames ++ f ∷ [];
  rest = left;
  sendable = All-append IsSendable v.frames (f ∷ []) v.sendable (sendable, tt);
  whole =
      ap (λ z. z ++ left) sent
      ∙ append_assoc (w.sent c) some_bytes left
      ∙ ap (λ z. w.sent c ++ z) (split ∙ sym (wire_one f))
      ∙ ap (λ z. z ++ wire (f ∷ [])) before
      ∙ sym (wire-append v.frames (f ∷ []));
  good = more v.frames v.good;
  cut = cut;
}
  where
    before : w.sent c ≡ wire v.frames
    before = sym (append-nil (w.sent c)) ∙ ap (λ z. w.sent c ++ z) (sym none_left) ∙ v.whole

-- Any list of frames.
abbrev pub Any : List Frame → Type 0
Any fs = Unit

-- Nothing happens to `c`.
pub IsFramed-same :
    {Q Q' : List Frame → Type 0} (w w' : Net) (c : ℕ)
    → IsFramed Q w c
    → ((fs : List Frame) → Q fs → Q' fs)
    → w'.sent c ≡ w.sent c
    → w'.limit c ≡ w.limit c
    → IsFramed Q' w' c
IsFramed-same w w' c v keep sent limit = record {
  frames = v.frames;
  rest = v.rest;
  sendable = v.sendable;
  whole = ap (λ z. z ++ v.rest) sent ∙ v.whole;
  good = keep v.frames v.good;
  cut = ground (arith, v.cut);
}

drop_all : (n : ℕ) (b : Bytes) → length b ≤ n → drop n b ≡ []
drop_all zero [] h = refl
drop_all zero (x ∷ b) h = absurd (omega arith)
drop_all (suc n) [] h = refl
drop_all (suc n) (x ∷ b) h = drop_all n b (omega arith)

layout_long : (f : Frame) → 9 ≤ length (layout f)
layout_long f = omega (arith, length-append (header f) f.payload, length-header f)

module _ {Q Q' : List Frame → Type 0} (w : Net) (c : ℕ) (f : Frame) (v : IsFramed Q w c)
    (keep : (write c (layout f) w).0 ≢ none → (fs : List Frame) → Q fs → Q' fs)
    (more : (fs : List Frame) → Q fs → Q' (fs ++ f ∷ [])) (sendable : IsSendable f) where
  write_open :
      w.is_open c ≡ true
      → write c (layout f) w ≡ (
        if within (w.limit c) (length (layout f)) then none else some (other 0),
        wrote w c (layout f),
      )
  unfolding write
  write_open h = ground arith

  write_closed : w.is_open c ≡ false → write c (layout f) w ≡ (some closed_conn, w)
  unfolding write
  write_closed h = ground arith

  at_limit_fails : w.limit c ≡ some 0 → (write c (layout f) w).0 ≢ none
  unfolding write
  at_limit_fails h e = ground (arith, layout_long f)

  closed_fails : w.is_open c ≡ false → (write c (layout f) w).0 ≢ none
  unfolding write
  closed_fails h e = ground arith

  wrote-IsFramed : IsFramed Q' (wrote w c (layout f)) c
  wrote-IsFramed = elim v.cut [
    | inr at_limit ↦
        IsFramed-same w (wrote w c (layout f)) c v (keep (at_limit_fails at_limit))
          (ground (arith, append-nil (w.sent c))) (ground arith)
    | inl none_left ↦ elim (Option-cases (w.limit c)) [
      | inl unlimited ↦
          one_more w (wrote w c (layout f)) c f (layout f) [] v more sendable none_left
            (ground arith) (append-nil (layout f)) (inl refl)
      | inr (l, limited) ↦
          one_more w (wrote w c (layout f)) c f (take l (layout f)) (drop l (layout f)) v more
            sendable none_left (ground arith) (take-append-drop l (layout f))
            (elim (Bool-cases (leb (length (layout f)) l)) [
              | inl fits ↦ inl (drop_all l (layout f) (ground arith))
              | inr short ↦ inr (ground arith)
            ])
    ]
  ]

  -- Where the write reports no error, the frame is there.
  pub write-IsFramed : IsFramed Q' (write c (layout f) w).1 c
  write-IsFramed = elim (Bool-cases (w.is_open c)) [
    | inl open_still ↦ rw (write_open open_still) wrote-IsFramed
    | inr closed ↦
        rw (write_closed closed) (IsFramed-same w w c v (keep (closed_fails closed)) refl refl)
  ]

-- A write to another connection.
pub write-IsFramed_other :
    {Q Q' : List Frame → Type 0} (w : Net) (c d : ℕ) (b : Bytes)
    → d ≢ c
    → IsFramed Q w d
    → ((fs : List Frame) → Q fs → Q' fs)
    → IsFramed Q' (write c b w).1 d
unfolding write
write-IsFramed_other w c d b ne v keep =
    IsFramed-same w (write c b w).1 d v keep (ground arith) (ground arith)

-- A connection that has just been opened.
pub opened-IsFramed : {Q : List Frame → Type 0} (w : Net) (c : ℕ) → Q [] → IsFramed Q (opened c w) c
opened-IsFramed w c q = record {
  frames = [];
  rest = [];
  sendable = tt;
  whole = ground arith;
  good = q;
  cut = inl refl;
}

-- Where more bytes are taken, nothing is broken off.
pub IsFramed-whole :
    {Q : List Frame → Type 0} (w : Net) (c : ℕ) (v : IsFramed Q w c)
    → w.limit c ≢ some 0
    → w.sent c ≡ wire v.frames
IsFramed-whole w c v takes = elim v.cut [
  | inl e ↦ sym (append-nil (w.sent c)) ∙ (sym (ap (λ z. w.sent c ++ z) e) ∙ v.whole)
  | inr e ↦ absurd (takes e)
]
