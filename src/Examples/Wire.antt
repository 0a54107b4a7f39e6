-- ===== src/Examples/Wire.antt =====
-- Frames and configurations on the wire.
use ngp_mtls.Prelude.{
  ◌^◌, ◌<◌, ◌≡◌, ◌↔◌, some, [], ◌∷◌, ◌++◌, Bytes, codes, length, take, nat_eq, bytes_eq, arith, eof,
  ok, err, pos, IsInt64,
}
use ngp_mtls.Decimal.RoundTrip.{Lacks}
use ngp_mtls.Decimal.Atoi.{Denotes}
use ngp_mtls.Proto.{Frame, IsFrame, data_frame, put_uint32, encode_frame, decode_frame, ◌>>=◌}
use ngp_mtls.Proto.RoundTrip.{layout, stream, decode_frame-layout, decode_frame-encode_frame}
use ngp_mtls.Proto.Sound.{encode_frame-decode_frame}
use ngp_mtls.Proto.Errors.{cut_error, decode_frame_cut}
use ngp_mtls.Proto.Init.{
  InitConfig, encode_init_config, decode_init_config, decode_init_config-encode_init_config,
  decode_init_config_iff,
}

abbrev pub hi : Frame
hi = data_frame 5 (codes "hi")

-- The bytes of that frame.
abbrev pub hi_bytes : Bytes
hi_bytes = 2 ∷ 0 ∷ 0 ∷ 0 ∷ 5 ∷ 0 ∷ 0 ∷ 0 ∷ 2 ∷ 104 ∷ 105 ∷ []

abbrev pub config : InitConfig
config = record { remote_port = pos 8080; local_addr = codes "127.0.0.1:80" }

pub hi-IsFrame : IsFrame hi
hi-IsFrame = record { type_fits = omega arith; id_fits = omega arith; payload_bytes = omega arith }

hi_read : decode_frame (stream hi_bytes eof) ≡ ok (hi, stream [] eof)
unfolding put_uint32
hi_read = decode_frame-layout hi [] eof hi-IsFrame (omega arith)

hi_longer : 9 < length (layout hi)
unfolding put_uint32
hi_longer = omega arith

decode_frame-encode_frame_example :
    (do b ← encode_frame (some hi); decode_frame (stream (b ++ (1 ∷ [])) eof))
    ≡ ok (hi, stream (1 ∷ []) eof)
decode_frame-encode_frame_example =
    decode_frame-encode_frame hi (1 ∷ []) eof hi-IsFrame (omega arith)

encode_frame-decode_frame_example :
    IsFrame hi
    × (length hi.payload < 2 ^ 32)
    × ((b : Bytes) × (encode_frame (some hi) ≡ ok b)
        × ((stream hi_bytes eof).bytes ≡ b ++ (stream [] eof).bytes))
    × ((stream [] eof).ending ≡ (stream hi_bytes eof).ending)
encode_frame-decode_frame_example =
    encode_frame-decode_frame (stream hi_bytes eof) hi (stream [] eof) (omega arith) hi_read

decode_frame_cut_example :
    (do b ← encode_frame (some hi); decode_frame (stream (take 9 b) eof)) ≡ err (cut_error 9 eof)
decode_frame_cut_example = decode_frame_cut hi 9 eof (omega arith) hi_longer

decode_init_config-encode_init_config_example :
    decode_init_config (encode_init_config config) ≡ ok config
decode_init_config-encode_init_config_example =
    decode_init_config-encode_init_config config (omega arith)

decode_init_config_iff_example : (decode_init_config (codes "8080:127.0.0.1:80") ≡ ok config) ↔ (
    (p : Bytes) × ((codes "8080:127.0.0.1:80") ≡ p ++ (b':' ∷ config.local_addr))
    × Lacks b':' p
    × Denotes p config.remote_port
    × IsInt64 config.remote_port)
decode_init_config_iff_example = decode_init_config_iff (codes "8080:127.0.0.1:80") config
