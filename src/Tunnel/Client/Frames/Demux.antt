-- ===== src/Tunnel/Client/Frames/Demux.antt =====
-- What a local connection gets, among the frames of all connections.
use ngp_mtls.Prelude.{
  ℕ, ◌≡◌, ◌≢◌, refl, ap, sym, ◌∙◌, inl, inr, Bool-cases, none, some, List, [], ◌∷◌, ◌++◌,
  append_assoc, append-nil, All, Bytes, length, ltb, lookup, nat_eq, arith, ◌==◌, if◌then◌else◌,
}
use ngp_mtls.Proto
use ngp_mtls.Proto.{Frame, bare_frame}
use ngp_mtls.Tunnel.Net.{write}
use ngp_mtls.Tunnel.Protocol.Carried.{none_carried, carried, bytes_for}
use ngp_mtls.Tunnel.Client.{Client}
use ngp_mtls.Tunnel.Client.Frames.{handle_data_frame, handle_frame, handle_all}
use ngp_mtls.Tunnel.Client.Frames.Cases.{data_written, data_empty, frame_ignored}
use ngp_mtls.Tunnel.Client.Frames.Sink.{
  new_elsewhere, IsSink, Keeps, Kept, data_elsewhere, close_elsewhere,
}

module _ (k l : ℕ) where
  -- What is written to `l`.
  abbrev Gets : Client → Bytes → Client → Type 0
  Gets s b s' = (s'.net.sent l ≡ s.net.sent l ++ b) × IsSink s' k l

  Kept-Gets : (s s' : Client) → Kept k l s s' → Gets s [] s'
  Kept-Gets s s' (e, v) = (e ∙ sym (append-nil (s.net.sent l)), v)

  module _ (f : Frame) (s : Client) (v : IsSink s k l) where
    written : (write l f.payload s.net).0 ≡ none
    unfolding write
    written = ground (arith, v.local_open, v.unlimited)

    sink_Gets : Gets s f.payload (record s { net = (write l f.payload s.net).1 })
    unfolding write
    sink_Gets = (
      ground (arith, v.local_open, v.unlimited),
      record {
        mapped = v.mapped;
        local_open = ground (arith, v.local_open);
        unlimited = ground (arith, v.unlimited);
        once = v.once;
        undialled = ground (arith, v.undialled);
        apart = v.apart;
      },
    )

    data_here : f.conn_id ≡ k → Gets s f.payload (handle_data_frame f s).1
    data_here e =
        let there : lookup f.conn_id s.conn_map ≡ some l = rw e v.mapped in
        elim (Bool-cases (ltb 0 (length f.payload))) [
          | inr none_sent ↦
              rw (data_empty f s l there none_sent, none_carried f.payload none_sent)
                (Kept-Gets s s (refl, v))
          | inl some_bytes ↦ rw (data_written f s l there some_bytes written) sink_Gets
        ]

    -- One frame.
    frame_Gets : Keeps k f → Gets s (carried k f) (handle_frame f s).1
    unfolding handle_frame
    frame_Gets keeps = elim (Bool-cases (f.frame_type == Proto.new_conn)) [
      | inl a ↦
          let ne : f.conn_id ≢ k = λ h. ground (arith, keeps) in
          let nothing : carried k f ≡ [] = ground arith in
          rw (nothing, a, if◌then◌else◌) (Kept-Gets s _ (new_elsewhere k l f s v ne))
      | inr a ↦ elim (Bool-cases (f.frame_type == Proto.data_type)) [
        | inl b ↦ elim (Bool-cases (f.conn_id == k)) [
          | inl here ↦
              let all : carried k f ≡ f.payload = ground arith in
              rw (all, a, b, if◌then◌else◌) (data_here (ground arith))
          | inr there ↦
              let nothing : carried k f ≡ [] = ground arith in
              rw (nothing, a, b, if◌then◌else◌)
                (Kept-Gets s _ (data_elsewhere k l f s v (ground arith)))
        ]
        | inr b ↦
            let nothing : carried k f ≡ [] = ground arith in
            elim (Bool-cases (f.frame_type == Proto.close)) [
              | inl c ↦
                  let ne : f.conn_id ≢ k = λ h. ground (arith, keeps) in
                  rw (nothing, a, b, c, if◌then◌else◌)
                    (Kept-Gets s _ (close_elsewhere k l f s v ne))
              | inr c ↦ rw (nothing, frame_ignored f s a b c) (Kept-Gets s s (refl, v))
            ]
      ]
    ]

-- The frames `fs` of any number of connections, in any order, none of which opens or closes the
-- connection `k`: whatever happens to the other connections, dials that fail and writes that break
-- off included, the local connection `l` of `k` is written exactly the bytes that the DATA frames
-- for `k` carry, in order, and stays open and in the map. It must be in the map under `k` only, be
-- open and take all that is written, and neither be the control connection nor come from a later
-- dial.
pub demultiplexes :
    (k l : ℕ) (fs : List Frame) (s : Client)
    → IsSink s k l
    → All (Keeps k) fs
    → ((handle_all fs s).1.net.sent l ≡ s.net.sent l ++ bytes_for k fs)
      × IsSink (handle_all fs s).1 k l
unfolding handle_all
demultiplexes k l [] s v keeps = (sym (append-nil (s.net.sent l)), v)
demultiplexes k l (f ∷ fs) s v (keep, keeps) =
    let (e, w) = frame_Gets k l f s v keep in
    let (e', w') = demultiplexes k l fs (handle_frame f s).1 w keeps in
    (
      e'
          ∙ ap (λ z. z ++ bytes_for k fs) e
          ∙ append_assoc (s.net.sent l) (carried k f) (bytes_for k fs),
      w',
    )

-- One list of frames after the other.
pub handle_all-append :
    (xs ys : List Frame) (t : Client) → handle_all (xs ++ ys) t ≡ handle_all ys (handle_all xs t).1
unfolding handle_all
handle_all-append [] ys t = refl
handle_all-append (x ∷ xs) ys t = handle_all-append xs ys (handle_frame x t).1

pub handle_all_nothing : (t : Client) → handle_all [] t ≡ (tt, t)
unfolding handle_all
handle_all_nothing t = refl
