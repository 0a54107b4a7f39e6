-- ===== src/Examples/Serving.antt =====
-- The frames of a client at the server.
use ngp_mtls.Prelude.{
  ℕ, ◌≡◌, ◌≢◌, ◌⊎◌, refl, true, false, none, some, ◌∷◌, Bytes, lookup, nat_eq, bytes_eq, arith,
  Error, eof, ok, err, positive,
}
use ngp_mtls.Proto
use ngp_mtls.Proto.{Frame, bare_frame, data_frame, Stream}
use ngp_mtls.Proto.RoundTrip.{stream, IsSendable}
use ngp_mtls.Tunnel.Net.{dial}
use ngp_mtls.Examples.Wire.{hi_bytes, config}
use ngp_mtls.Tunnel.Server.{free, done, Returns, client_listener}
use ngp_mtls.Examples.Data.{name, server, registered_name}
use ngp_mtls.Proto.Init.{InitConfig, decode_init_config, encode_init_config}
use ngp_mtls.Tunnel.Server.Frames.{handle_init_frame, handle_client_connection}
use ngp_mtls.Tunnel.Server.Frames.Isolation.{Foreign}
use ngp_mtls.Tunnel.Server.Frames.Init.{handle_init_frame_lem}
use ngp_mtls.Tunnel.Server.Frames.Serve.{handle_client_connection_lem}

abbrev bye : Frame
bye = bare_frame Proto.close 5

abbrev hello : Frame
hello = record { frame_type = Proto.init; conn_id = 0; payload = encode_init_config config }

bye-IsSendable : IsSendable bye
bye-IsSendable =
    (record { type_fits = omega arith; id_fits = omega arith; payload_bytes = tt }, omega arith)

server-Foreign : Foreign server 0 30
unfolding lookup
server-Foreign = record {
  not_control = omega arith;
  not_mapped = λ k. ground arith;
  not_dialled = (λ h. cc, (λ h. cc, tt));
}

handle_client_connection_lem_example :
    Returns
      (handle_client_connection 12 (λ _. false) name 1 (stream hi_bytes eof) server)
      λ ended s'.
        (ended ≡ true)
        × (lookup name s'.clients ≡ none)
        × ((j : Bytes) → j ≢ name → lookup j s'.clients ≡ lookup j server.clients)
        × (s'.clients_mu ≡ free)
handle_client_connection_lem_example =
    handle_client_connection_lem 12 (λ _. false) name 1 (stream hi_bytes eof) server (omega arith)
      refl

handle_init_frame_lem_example :
    ((e : Error) × (decode_init_config hello.payload ≡ err e)
      × (handle_init_frame name hello server ≡ done (tt, server)))
    ⊎ ((c : InitConfig) × (decode_init_config hello.payload ≡ ok c)
        × Returns (handle_init_frame name hello server) λ _ s'.
          ((s'.infos 0).local_addr ≡ c.local_addr)
          × ((s'.infos 0).remote_port ≡ c.remote_port)
          × ((((positive c.remote_port ≡ false)
                  ⊎ ((l : ℕ) × ((server.infos 0).public_listener ≡ some l)))
                × ((s'.infos 0).public_listener ≡ (server.infos 0).public_listener)
                × (s'.net ≡ server.net)
                × (s'.tasks ≡ server.tasks))
              ⊎ ((positive c.remote_port ≡ true)
                  × ((server.infos 0).public_listener ≡ none)
                  × (s'.net ≡ (dial server.net).1)
                  × (((l : ℕ) × ((dial server.net).0 ≡ ok l)
                        × ((s'.infos 0).public_listener ≡ some l)
                        × (s'.tasks ≡ client_listener name l ∷ server.tasks))
                      ⊎ ((e : Error) × ((dial server.net).0 ≡ err e)
                          × ((s'.infos 0).public_listener ≡ none)
                          × (s'.tasks ≡ server.tasks))))))
handle_init_frame_lem_example = handle_init_frame_lem name hello server 0 refl registered_name refl
