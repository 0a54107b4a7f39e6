-- ===== src/Tunnel/Client/Frames/Cases.antt =====
-- What the handlers of frames do, case by case.
use ngp_mtls.Prelude.{
  ℕ, ◌≡◌, true, false, none, some, ◌∷◌, Error, ok, err, length, ltb, lookup, delete, insert, nat_eq,
  arith, ◌==◌,
}
use ngp_mtls.Proto
use ngp_mtls.Proto.{Frame}
use ngp_mtls.Tunnel.Net.{Net, write, close, dial}
use ngp_mtls.Tunnel.Client.{Client, send_close_frame, write_conn}
use ngp_mtls.Tunnel.Client.Frames.{
  handle_new_conn, dial_local, deliver, handle_data_frame, handle_close_frame, handle_frame,
}

pub send_close_frame_alone :
    (k : ℕ) (s : Client) → s.control_conn ≡ none → send_close_frame k s ≡ (tt, s)
unfolding send_close_frame
send_close_frame_alone k s h = ground arith

module _ (f : Frame) (s : Client) where
  pub data_fails :
      (l : ℕ) (e : Error)
      → lookup f.conn_id s.conn_map ≡ some l
      → ltb 0 (length f.payload) ≡ true
      → (write l f.payload s.net).0 ≡ some e
      → (handle_data_frame f s).1
        ≡ (send_close_frame f.conn_id (record s {
          net = close l (write l f.payload s.net).1;
          conn_map = delete f.conn_id s.conn_map;
        })).1
  unfolding handle_data_frame deliver write_conn
  data_fails l e there some_bytes bad = ground arith

  pub data_written :
      (l : ℕ)
      → lookup f.conn_id s.conn_map ≡ some l
      → ltb 0 (length f.payload) ≡ true
      → (write l f.payload s.net).0 ≡ none
      → (handle_data_frame f s).1 ≡ record s { net = (write l f.payload s.net).1 }
  unfolding handle_data_frame deliver write_conn
  data_written l there some_bytes good = ground arith

  pub data_empty :
      (l : ℕ)
      → lookup f.conn_id s.conn_map ≡ some l
      → ltb 0 (length f.payload) ≡ false
      → (handle_data_frame f s).1 ≡ s
  unfolding handle_data_frame
  data_empty l there empty = ground arith

  pub data_unknown : lookup f.conn_id s.conn_map ≡ none → (handle_data_frame f s).1 ≡ s
  unfolding handle_data_frame
  data_unknown gone = ground arith

  pub close_unknown :
      lookup f.conn_id s.conn_map ≡ none
      → (handle_close_frame f s).1 ≡ record s { conn_map = delete f.conn_id s.conn_map }
  unfolding handle_close_frame
  close_unknown gone = ground arith

  pub close_known :
      (l : ℕ)
      → lookup f.conn_id s.conn_map ≡ some l
      → (handle_close_frame f s).1
        ≡ (send_close_frame f.conn_id
            (record s { net = close l s.net; conn_map = delete f.conn_id s.conn_map })).1
  unfolding handle_close_frame
  close_known l there = ground arith

  pub frame_ignored :
      (f.frame_type == Proto.new_conn) ≡ false
      → (f.frame_type == Proto.data_type) ≡ false
      → (f.frame_type == Proto.close) ≡ false
      → (handle_frame f s).1 ≡ s
  unfolding handle_frame
  frame_ignored a b c = ground arith

  pub new_dialled :
      (l : ℕ) (w : Net)
      → dial s.net ≡ (ok l, w)
      → (handle_new_conn f s).1 ≡ record s {
        net = w;
        conn_map = insert f.conn_id l s.conn_map;
        tasks = (f.conn_id, l) ∷ s.tasks;
      }
  unfolding handle_new_conn dial_local
  new_dialled l w d = ground arith

  pub new_failed :
      (e : Error) (w : Net)
      → dial s.net ≡ (err e, w)
      → (handle_new_conn f s).1 ≡ (send_close_frame f.conn_id (record s { net = w })).1
  unfolding handle_new_conn dial_local
  new_failed e w d = ground arith
