-- ===== src/Tunnel/Client/Frames/Handle.antt =====
-- What the client's handlers of frames do, branch by branch.
use ngp_mtls.Prelude.{
  ◌∙◌, ap, Option-cases, sym, Result-cases, Bool-cases, inl, inr, ℕ, ◌<◌, ◌≡◌, ◌≢◌, true, false,
  none, some, List, [], ◌∷◌, ◌++◌, length, lookup, delete, lookup-delete, lookup-insert, nat_eq,
  arith, ok, err, Error, Result, ◌⊎◌,
}
use ngp_mtls.Proto
use ngp_mtls.Proto.{bare_frame, Frame, encode_frame}
use ngp_mtls.Proto.RoundTrip.{layout}
use ngp_mtls.Tunnel.Net.{write, close, takes, wrote, part-within, dial}
use ngp_mtls.Tunnel.Client.{Client, write_conn}
use ngp_mtls.Tunnel.Client.Steps.{send_close_frame-sent}
use ngp_mtls.Tunnel.Client.Frames.{
  handle_new_conn, dial_local, handle_data_frame, deliver, handle_close_frame,
}

-- A NEW_CONN frame makes the client dial the local service, for one that can take CLOSE_CONN frames
-- on its control connection. If that succeeds, the connection is in the map under the frame's
-- number, a goroutine that forwards what it reads is started, every other entry stays, and nothing
-- is written to the server; if it fails, the error is returned, the map and the goroutines stay,
-- and a CLOSE_CONN frame goes to the server.
pub handle_new_conn_lem :
    (f : Frame) (s : Client) (c k : ℕ) (r : Result ℕ) (rest : List (Result ℕ))
    → s.control_conn ≡ some c
    → s.net.dials ≡ r ∷ rest
    → r ≢ ok c
    → k ≢ f.conn_id
    → takes s.net c (layout (bare_frame Proto.close f.conn_id)) ≡ true
    → ((l : ℕ) × (r ≡ ok l)
        × (((handle_new_conn f s).0 ≡ none)
            × (lookup f.conn_id (handle_new_conn f s).1.conn_map ≡ some l)
            × (lookup k (handle_new_conn f s).1.conn_map ≡ lookup k s.conn_map)
            × ((handle_new_conn f s).1.tasks ≡ (f.conn_id, l) ∷ s.tasks)
            × ((handle_new_conn f s).1.net.is_open l ≡ true)
            × ((handle_new_conn f s).1.net.sent c ≡ s.net.sent c)))
      ⊎ ((e : Error) × (r ≡ err e)
          × (((handle_new_conn f s).0 ≡ some e)
              × ((handle_new_conn f s).1.conn_map ≡ s.conn_map)
              × ((handle_new_conn f s).1.tasks ≡ s.tasks)
              × ((handle_new_conn f s).1.net.sent c
                  ≡ s.net.sent c ++ layout (bare_frame Proto.close f.conn_id))))
unfolding handle_new_conn dial_local dial write
handle_new_conn_lem f s c k r rest h d nc ne t = elim (Result-cases r) [
  | inr (l, got) ↦ inl (
    l,
    got,
    ground (
      arith,
      lookup-insert f.conn_id f.conn_id l s.conn_map,
      lookup-insert f.conn_id k l s.conn_map,
    ),
  )
  | inl (e, failed) ↦ inr (
    e,
    failed,
    ground (
      arith,
      send_close_frame-sent f.conn_id c (record s { net = (dial s.net).1 }),
      part-within (s.net.limit c) (layout (bare_frame Proto.close f.conn_id)),
    ),
  )
]

-- A DATA frame for a connection that is not in the map, or without bytes, changes nothing.
pub handle_data_frame_ignored :
    (f : Frame) (s : Client)
    → ((lookup f.conn_id s.conn_map ≡ none) ⊎ (f.payload ≡ []))
    → handle_data_frame f s ≡ (none, s)
unfolding handle_data_frame
handle_data_frame_ignored f s why = ground arith

pub handle_data_frame-delivers :
    (f : Frame) (s : Client) (l : ℕ)
    → lookup f.conn_id s.conn_map ≡ some l
    → 0 < length f.payload
    → takes s.net l f.payload ≡ true
    → handle_data_frame f s ≡ (none, record s { net = wrote s.net l f.payload })
unfolding handle_data_frame deliver write_conn write
handle_data_frame-delivers f s l found some_bytes t = ground arith

-- A DATA frame with bytes for a mapped connection, when the server takes CLOSE_CONN frames: either
-- the bytes are appended to what that connection was sent, and its entry stays; or the write fails,
-- and then the connection is closed, its entry is gone, the error is returned, and a CLOSE_CONN
-- frame for it goes to the server.
pub client_handle_data_frame_lem :
    (f : Frame) (s : Client) (c l : ℕ)
    → s.control_conn ≡ some c
    → lookup f.conn_id s.conn_map ≡ some l
    → 0 < length f.payload
    → c ≢ l
    → takes s.net c (layout (bare_frame Proto.close f.conn_id)) ≡ true
    → ((takes s.net l f.payload ≡ true)
        × (((handle_data_frame f s).0 ≡ none)
            × ((handle_data_frame f s).1.net.sent l ≡ s.net.sent l ++ f.payload)
            × ((handle_data_frame f s).1.net.sent c ≡ s.net.sent c)
            × ((handle_data_frame f s).1.conn_map ≡ s.conn_map)))
      ⊎ ((takes s.net l f.payload ≡ false)
          × (((handle_data_frame f s).0 ≢ none)
              × ((handle_data_frame f s).1.net.is_open l ≡ false)
              × (lookup f.conn_id (handle_data_frame f s).1.conn_map ≡ none)
              × ((handle_data_frame f s).1.net.sent c
                  ≡ s.net.sent c ++ layout (bare_frame Proto.close f.conn_id))))
unfolding handle_data_frame deliver write_conn write
client_handle_data_frame_lem f s c l h found some_bytes ne u =
    elim (Bool-cases (takes s.net l f.payload)) [
      | inl t ↦ inl (t, ground (arith, part-within (s.net.limit l) f.payload))
      | inr t ↦ inr (
        t,
        ground (
          arith,
          send_close_frame-sent f.conn_id c (record s {
            net = close l (write l f.payload s.net).1;
            conn_map = delete f.conn_id s.conn_map;
          }),
          lookup-delete f.conn_id f.conn_id s.conn_map,
          part-within (s.net.limit c) (layout (bare_frame Proto.close f.conn_id)),
        ),
      )
    ]

handle_close_frame-echoes :
    (f : Frame) (s : Client) (c k : ℕ)
    → s.control_conn ≡ some c
    → k ≢ f.conn_id
    → (l : ℕ) → lookup f.conn_id s.conn_map ≡ some l
    → c ≢ l
    → takes s.net c (layout (bare_frame Proto.close f.conn_id)) ≡ true
    → ((handle_close_frame f s).0 ≡ none)
      × ((handle_close_frame f s).1.net.is_open l ≡ false)
      × (lookup f.conn_id (handle_close_frame f s).1.conn_map ≡ none)
      × (lookup k (handle_close_frame f s).1.conn_map ≡ lookup k s.conn_map)
      × ((handle_close_frame f s).1.net.sent c
          ≡ s.net.sent c ++ layout (bare_frame Proto.close f.conn_id))
unfolding handle_close_frame write
handle_close_frame-echoes f s c k h ne l found nc t = ground (
  arith,
  send_close_frame-sent f.conn_id c
      (record s { net = close l s.net; conn_map = delete f.conn_id s.conn_map }),
  lookup-delete f.conn_id f.conn_id s.conn_map,
  lookup-delete f.conn_id k s.conn_map,
  part-within (s.net.limit c) (layout (bare_frame Proto.close f.conn_id)),
)

handle_close_frame_unknown :
    (f : Frame) (s : Client) (k : ℕ)
    → lookup f.conn_id s.conn_map ≡ none
    → ((handle_close_frame f s).0 ≡ none)
      × ((handle_close_frame f s).1.net ≡ s.net)
      × (lookup f.conn_id (handle_close_frame f s).1.conn_map ≡ none)
      × (lookup k (handle_close_frame f s).1.conn_map ≡ lookup k s.conn_map)
unfolding handle_close_frame
handle_close_frame_unknown f s k found =
    ground
      (arith, lookup-delete f.conn_id f.conn_id s.conn_map, lookup-delete f.conn_id k s.conn_map)

-- A CLOSE_CONN frame, when the server takes one in return and no local connection is the control
-- connection: one for a mapped connection closes it, takes its entry and no other out of the map,
-- and is answered by a CLOSE_CONN frame; one for a connection that is not in the map is not
-- answered, and no entry goes. No error is returned.
pub client_handle_close_frame_lem :
    (f : Frame) (s : Client) (c k : ℕ)
    → s.control_conn ≡ some c
    → k ≢ f.conn_id
    → lookup f.conn_id s.conn_map ≢ some c
    → takes s.net c (layout (bare_frame Proto.close f.conn_id)) ≡ true
    → ((handle_close_frame f s).0 ≡ none)
      × (lookup f.conn_id (handle_close_frame f s).1.conn_map ≡ none)
      × (lookup k (handle_close_frame f s).1.conn_map ≡ lookup k s.conn_map)
      × (((l : ℕ) × (lookup f.conn_id s.conn_map ≡ some l)
            × ((handle_close_frame f s).1.net.is_open l ≡ false)
            × ((handle_close_frame f s).1.net.sent c
                ≡ s.net.sent c ++ layout (bare_frame Proto.close f.conn_id)))
          ⊎ ((lookup f.conn_id s.conn_map ≡ none) × ((handle_close_frame f s).1.net ≡ s.net)))
client_handle_close_frame_lem f s c k h ne nc t =
    elim (Option-cases (lookup f.conn_id s.conn_map)) [
      | inl gone ↦
          let (ended, same, out, kept) = handle_close_frame_unknown f s k gone in
          (ended, out, kept, inr (gone, same))
      | inr (l, found) ↦
          let (ended, closed, out, kept, echo) =
            handle_close_frame-echoes f s c k h ne l found (λ e. nc (found ∙ ap some (sym e))) t in
          (ended, out, kept, inl (l, found, closed, echo))
    ]
