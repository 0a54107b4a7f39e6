-- ===== src/Pqctls/Endpoint/Safe.antt =====
-- Only checked connections come out of `Accept` and `Dial`.
use ngp_mtls.Prelude.{
  ◌≡◌, refl, ◌⊎◌, inl, inr, Bool-cases, true, false, Option-cases, none, some, All, arith,
}
use ngp_mtls.Pqctls.{wants_more, broken, Accepted, accept_loop}
use ngp_mtls.Pqctls.Accepts
use ngp_mtls.Pqctls.Accepts.{Decided, Passed, Unknown, accept_loop_lem}
use ngp_mtls.Pqctls.Endpoint.{
  Meeting, Refusal, Met, secured, refused, pending, no_conn, no_raw, no_fd, no_ssl, no_set_fd,
  no_pqc, handshake, closed, started, from_loop, secure, accept_conn, dial_conn, Endpoint, free_ctx,
  close_listener, close_dialer,
}

-- Every step before the handshake succeeded.
abbrev pub Prepared : Meeting → Type 0
Prepared m =
    (m.arrival ≡ none) × (m.raw ≡ none) × (m.control ≡ none) × (m.made ≡ true) × (m.fd_set ≡ true)

-- An error says what went wrong.
abbrev pub Because : Meeting → Refusal → Type 0
Because m (no_conn e) = m.arrival ≡ some e
Because m (no_raw e) = m.raw ≡ some e
Because m (no_fd e) = m.control ≡ some e
Because m no_ssl = m.made ≡ false
Because m no_set_fd = m.fd_set ≡ false
Because m no_pqc = Unknown m.attempts
Because m (handshake code) = Decided (broken code) m.attempts

-- How `Accept` and `Dial` may end.
abbrev pub Ended : Meeting → Met → Type 0
Ended m out =
    ((out ≡ pending started) × Prepared m × All (λ a. a ≡ wants_more) m.attempts)
    ⊎ (((out ≡ secured started) × Prepared m × Passed m.attempts)
        ⊎ ((why : Refusal) × (out ≡ refused why closed) × Because m why))

from_loop-Ended :
    (m : Meeting) (out : Accepted)
    → Prepared m
    → Accepts.Ended m.attempts started out
    → Ended m (from_loop out)
unfolding from_loop
from_loop-Ended m out v (inl (e, more)) = inl (rw e refl, v, more)
from_loop-Ended m out v (inr (inl (e, passed))) = inr (inl (rw e refl, v, passed))
from_loop-Ended m out v (inr (inr (inl (e, bad)))) = inr (inr (no_pqc, rw e refl, bad))
from_loop-Ended m out v (inr (inr (inr (code, e, there)))) =
    inr (inr (handshake code, rw e refl, there))

secure_handshake :
    (m : Meeting)
    → m.made ≡ true
    → m.fd_set ≡ true
    → secure m ≡ from_loop (accept_loop m.attempts started)
unfolding secure
secure_handshake m made fd = ground arith

secure_unmade : (m : Meeting) → m.made ≡ false → secure m ≡ refused no_ssl closed
unfolding secure
secure_unmade m bad = ground arith

secure_unset :
    (m : Meeting) → m.made ≡ true → m.fd_set ≡ false → secure m ≡ refused no_set_fd closed
unfolding secure
secure_unset m made bad = ground arith

secure_lem : (m : Meeting) → m.arrival ≡ none → m.raw ≡ none → m.control ≡ none → Ended m (secure m)
secure_lem m a r c = elim (Bool-cases m.made) [
  | inr bad ↦ inr (inr (no_ssl, secure_unmade m bad, bad))
  | inl made ↦ elim (Bool-cases m.fd_set) [
    | inr bad ↦ inr (inr (no_set_fd, secure_unset m made bad, bad))
    | inl fd ↦ rw (secure_handshake m made fd) (
        from_loop-Ended m (accept_loop m.attempts started) (a, r, c, made, fd)
          (accept_loop_lem m.attempts started))
  ]
]

-- The steps before `SSL_new`.
met_lem :
    (m : Meeting) (out : Met)
    → out ≡ elim m.arrival [
      | some e ↦ refused (no_conn e) closed
      | none ↦ elim m.raw [
        | some e ↦ refused (no_raw e) closed
        | none ↦ elim m.control [ some e ↦ refused (no_fd e) closed | none ↦ secure m ]
      ]
    ]
    → Ended m out
met_lem m out same = elim (Option-cases m.arrival) [
  | inr (e, bad) ↦ inr (inr (no_conn e, ground arith, bad))
  | inl arrived ↦ elim (Option-cases m.raw) [
    | inr (e, bad) ↦ inr (inr (no_raw e, ground arith, bad))
    | inl got_raw ↦ elim (Option-cases m.control) [
      | inr (e, bad) ↦ inr (inr (no_fd e, ground arith, bad))
      | inl got_fd ↦
          let all : out ≡ secure m = ground arith in rw all (secure_lem m arrived got_raw got_fd)
    ]
  ]
]

-- Whatever the system and OpenSSL answer, `Accept` and `Dial` still call for the handshake, while
-- every attempt wanted more; or they return a connection with a live SSL object, after every step
-- before succeeded and the first attempt that did not want more negotiated a group that the check
-- for post-quantum algorithms knows; or they return the error of the step that failed, and then the
-- SSL object is freed and the connection is closed.
pub accept_conn_lem : (m : Meeting) → Ended m (accept_conn m) × Ended m (dial_conn m)
unfolding accept_conn dial_conn
accept_conn_lem m = (met_lem m (accept_conn m) refl, met_lem m (dial_conn m) refl)

-- Closing twice is the same as closing once: the context of a listener or a dialer is freed once.
pub close_listener_idem :
    (e : Endpoint)
    → (close_listener (close_listener e) ≡ close_listener e)
      × (close_dialer (close_dialer e) ≡ close_dialer e)
      × ((close_listener e).listens ≡ false)
unfolding close_listener close_dialer free_ctx
close_listener_idem e = ground arith
