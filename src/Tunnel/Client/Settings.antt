-- ===== src/Tunnel/Client/Settings.antt =====
-- internal/tunnel/client.go: the INIT frame that a client's settings give, in `sendInitConfig`.
use ngp_mtls.Prelude.{
  ◌+◌, ◌^◌, ◌<◌, ◌∷◌, IsBytes, All-append, length, length-append, IsInt64, arith,
}
use ngp_mtls.Decimal.{format}
use ngp_mtls.Decimal.Bounds.{length-format, format-IsBytes}
use ngp_mtls.Proto.Init.{InitConfig, encode_init_config}
use ngp_mtls.Proto.RoundTrip.{IsSendable}
use ngp_mtls.Tunnel.Client.{Client, init_frame}

-- The port is an `int`, and the address a string, of less than 4 GiB with the longest port.
pub record IsConfigured (s : Client) : Type 0 where
  pub port_fits : IsInt64 s.remote_port
  pub addr_bytes : IsBytes s.local_addr
  pub addr_fits : 21 + length s.local_addr < 2 ^ 32

encoded-IsBytes : (c : InitConfig) → IsBytes c.local_addr → IsBytes (encode_init_config c)
unfolding encode_init_config
encoded-IsBytes c h =
    All-append (λ b. b < 256) (format c.remote_port) (b':' ∷ c.local_addr)
      (format-IsBytes c.remote_port) (omega arith, h)

length-encoded :
    (c : InitConfig)
    → IsInt64 c.remote_port
    → length (encode_init_config c) < 22 + length c.local_addr
unfolding encode_init_config
length-encoded c h = omega (
  arith,
  length-append (format c.remote_port) (b':' ∷ c.local_addr),
  length-format c.remote_port h,
)

-- For every port and address, the INIT frame that `sendInitConfig` sends is one that can be encoded.
pub init_frame-IsSendable : (s : Client) → IsConfigured s → IsSendable (init_frame s)
init_frame-IsSendable s v =
    let c : InitConfig = record { remote_port = s.remote_port; local_addr = s.local_addr } in
    (
      record {
        type_fits = omega arith;
        id_fits = omega arith;
        payload_bytes = encoded-IsBytes c v.addr_bytes;
      },
      omega (arith, length-encoded c v.port_fits, v.addr_fits),
    )
