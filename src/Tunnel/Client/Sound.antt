-- ===== src/Tunnel/Client/Sound.antt =====
-- What holds of the client between any two actions of its goroutines, and the single changes that
-- keep it.
use ngp_mtls.Prelude.{
  ℕ, suc, ◌^◌, ◌<◌, ◌≤◌, ◌≡◌, ◌≢◌, refl, ap, sym, ◌∙◌, ◌⊎◌, inl, inr, Bool-cases, true, none, some,
  ◌∷◌, Bytes, Has, lookup, insert, delete, lookup-insert, lookup-delete, nat_eq, arith, ◌==◌,
}
use ngp_mtls.Proto.{Frame}
use ngp_mtls.Proto.RoundTrip.{layout, IsSendable}
use ngp_mtls.Tunnel.Net.{Net, write, close, opened}
use ngp_mtls.Tunnel.Framed.{
  Any, IsFramed, IsFramed-same, write-IsFramed, write-IsFramed_other, opened-IsFramed,
}
use ngp_mtls.Tunnel.Client.{Client, init_frame}

-- With connections below `n`.
pub record IsSound (n : ℕ) (s : Client) : Type 0 where
  -- The INIT frame that the settings give can be sent.
  pub init_fits : IsSendable (init_frame s)
  pub control_below : (c : ℕ) → s.control_conn ≡ some c → c < n
  pub tasks_below : (k l : ℕ) → Has (k, l) s.tasks → (l < n) × (k < 2 ^ 32)
  -- No goroutine reads the control connection as a local one.
  pub apart : (k l : ℕ) → Has (k, l) s.tasks → s.control_conn ≢ some l
  pub stream : (c : ℕ) → s.control_conn ≡ some c → IsFramed Any s.net c
  -- A connection in the map has its goroutine.
  pub mapped : (k l : ℕ) → lookup k s.conn_map ≡ some l → Has (k, l) s.tasks
  -- What is open is the control connection, or has its goroutine.
  pub accounted :
      (c : ℕ) → s.net.is_open c ≡ true → (s.control_conn ≡ some c) ⊎ ((k : ℕ) × Has (k, c) s.tasks)

pub IsSound-later : (n n' : ℕ) (s : Client) → n ≤ n' → IsSound n s → IsSound n' s
IsSound-later n n' s le v = record {
  init_fits = v.init_fits;
  control_below = λ c h. omega (arith, v.control_below c h);
  tasks_below = λ k l h. omega (arith, v.tasks_below k l h);
  apart = v.apart;
  stream = v.stream;
  mapped = v.mapped;
  accounted = v.accounted;
}

module _ {n : ℕ} (s : Client) (v : IsSound n s) where
  -- The network changes; nothing more is open, and the control connection keeps whole frames.
  pub IsSound-net :
      (w : Net)
      → ((c : ℕ) → s.control_conn ≡ some c → IsFramed Any w c)
      → ((c : ℕ) → w.is_open c ≡ true → s.net.is_open c ≡ true)
      → IsSound n (record s { net = w })
  IsSound-net w stream less = record {
    init_fits = v.init_fits;
    control_below = v.control_below;
    tasks_below = v.tasks_below;
    apart = v.apart;
    stream = stream;
    mapped = v.mapped;
    accounted = λ c h. v.accounted c (less c h);
  }

  write_opens : (c d : ℕ) (b : Bytes) → (write c b s.net).1.is_open d ≡ s.net.is_open d
  unfolding write
  write_opens c d b = ground arith

  pub IsSound-close : (l : ℕ) → IsSound n (record s { net = close l s.net })
  IsSound-close l =
      IsSound-net (close l s.net)
        (λ c h. IsFramed-same s.net (close l s.net) c (v.stream c h) (λ fs q. q) refl refl)
        (λ c h. ground arith)

  -- A frame on the control connection.
  pub IsSound-send :
      (c : ℕ) (f : Frame)
      → s.control_conn ≡ some c
      → IsSendable f
      → IsSound n (record s { net = (write c (layout f) s.net).1 })
  IsSound-send c f h sendable =
      IsSound-net (write c (layout f) s.net).1
        (λ d hd.
          let same : c ≡ d = cc (h, hd) in
          rw (← same) (write-IsFramed s.net c f (v.stream c h) (λ _ fs q. q) (λ fs q. tt) sendable))
        (λ d open_still. sym (write_opens c d (layout f)) ∙ open_still)

  -- Bytes to a local connection.
  pub IsSound-write :
      (k l : ℕ) (b : Bytes)
      → Has (k, l) s.tasks
      → IsSound n (record s { net = (write l b s.net).1 })
  IsSound-write k l b there =
      IsSound-net (write l b s.net).1
        (λ d hd.
          write-IsFramed_other s.net l d b (λ e. v.apart k l there (hd ∙ ap some e)) (v.stream d hd)
            (λ fs q. q))
        (λ d open_still. sym (write_opens l d b) ∙ open_still)

  pub IsSound-delete : (k : ℕ) → IsSound n (record s { conn_map = delete k s.conn_map })
  IsSound-delete k = record {
    init_fits = v.init_fits;
    control_below = v.control_below;
    tasks_below = v.tasks_below;
    apart = v.apart;
    stream = v.stream;
    mapped = λ j l h. ground (arith, lookup-delete k j s.conn_map, v.mapped j l);
    accounted = v.accounted;
  }

  -- The control connection is closed and forgotten.
  pub IsSound-lost :
      (c : ℕ)
      → s.control_conn ≡ some c
      → IsSound n (record s { control_conn = none; net = close c s.net })
  IsSound-lost c h = record {
    init_fits = v.init_fits;
    control_below = λ d e. cc;
    tasks_below = v.tasks_below;
    apart = λ k l there e. cc;
    stream = λ d e. cc;
    mapped = v.mapped;
    accounted = λ d open_still. elim (v.accounted d (ground arith)) [
      | inl e ↦ absurd (ground arith)
      | inr reads ↦ inr reads
    ];
  }

  -- The connection `n` to the server.
  pub IsSound-connected :
      s.control_conn ≡ none
      → IsSound (suc n) (record s { control_conn = some n; net = opened n s.net })
  IsSound-connected h = record {
    init_fits = v.init_fits;
    control_below = λ d e. ground arith;
    tasks_below = λ k l there. omega (arith, v.tasks_below k l there);
    apart = λ k l there e. ground (arith, v.tasks_below k l there);
    stream = λ d e. let same : n ≡ d = cc e in rw (← same) (opened-IsFramed s.net n tt);
    mapped = v.mapped;
    accounted = λ d open_now. elim (Bool-cases (n == d)) [
      | inl same ↦ inl (ground arith)
      | inr differ ↦ elim (v.accounted d (ground arith)) [
        | inl e ↦ absurd (cc (h, e))
        | inr reads ↦ inr reads
      ]
    ];
  }

  -- The local connection `n` for the number `k`, with its goroutine.
  pub IsSound-local :
      (k : ℕ)
      → k < 2 ^ 32
      → IsSound (suc n) (record s {
        net = opened n s.net;
        conn_map = insert k n s.conn_map;
        tasks = (k, n) ∷ s.tasks;
      })
  IsSound-local k fits = record {
    init_fits = v.init_fits;
    control_below = λ d e. omega (arith, v.control_below d e);
    tasks_below = λ j l there. elim there [
      | inl e ↦ ground arith
      | inr old ↦ omega (arith, v.tasks_below j l old)
    ];
    apart = λ j l there e. elim there [
      | inl new ↦ ground (arith, v.control_below l e)
      | inr old ↦ v.apart j l old e
    ];
    stream = λ d e.
        IsFramed-same s.net (opened n s.net) d (v.stream d e) (λ fs q. q)
          (ground (arith, v.control_below d e)) refl;
    mapped = λ j l h. elim (Bool-cases (k == j)) [
      | inl same ↦ inl (ground (arith, lookup-insert k j n s.conn_map))
      | inr differ ↦ inr (v.mapped j l (ground (arith, lookup-insert k j n s.conn_map)))
    ];
    accounted = λ d open_now. elim (Bool-cases (n == d)) [
      | inl same ↦ inr (k, inl (ground arith))
      | inr differ ↦ elim (v.accounted d (ground arith)) [
        | inl e ↦ inl e
        | inr (j, there) ↦ inr (j, inr there)
      ]
    ];
  }
