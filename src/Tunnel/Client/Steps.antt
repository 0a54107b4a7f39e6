-- ===== src/Tunnel/Client/Steps.antt =====
-- The client's frames on the control connection.
use ngp_mtls.Prelude.{ℕ, ◌≡◌, some, arith}
use ngp_mtls.Proto
use ngp_mtls.Proto.{Frame, bare_frame, encode_frame}
use ngp_mtls.Proto.RoundTrip.{layout, encode_frame-layout}
use ngp_mtls.Tunnel.Net.{write}
use ngp_mtls.Tunnel.Client.{Client, send, write_conn, send_close_frame}

-- The state after a frame has been written to `c`.
abbrev pub after_send : ℕ → Frame → Client → Client
after_send c f s = record s { net = (write c (layout f) s.net).1 }

-- A frame is encoded and written in one piece.
pub send_lem :
    (c : ℕ) (f : Frame) (s : Client) → send c f s ≡ ((write c (layout f) s.net).0, after_send c f s)
unfolding send write_conn
send_lem c f s = rw (encode_frame-layout f, send)

pub send_close_frame-sent :
    (k c : ℕ) (s : Client)
    → s.control_conn ≡ some c
    → send_close_frame k s ≡ (tt, after_send c (bare_frame Proto.close k) s)
unfolding send_close_frame
send_close_frame-sent k c s h = ground (arith, send_lem c (bare_frame Proto.close k) s)
