-- ===== src/Cmd/Starts.antt =====
-- What `main` of the client runs.
use ngp_mtls.Prelude.{false, ◌≡◌, ◌≢◌, refl, true, none, [], Bytes, arith, Result}
use ngp_mtls.Config.{ClientConfig, Loaded, loaded, refused}
use ngp_mtls.Config.Loads.{load_client_config_names}
use ngp_mtls.Tunnel.Net.{Net}
use ngp_mtls.Tunnel.Client.{Client}
use ngp_mtls.Tunnel.Client.Run.{new_client}
use ngp_mtls.Cmd.{Flags, client_config, client_main, make_client, sni}

client_config_names :
    (read : Bytes → Result Bytes) (unmarshal : Bytes → Result ClientConfig)
    (flags : Flags ClientConfig) (c : ClientConfig)
    → client_config read unmarshal flags ≡ loaded c
    → (c.server ≢ []) × (c.local ≢ [])
unfolding client_config
client_config_names read unmarshal flags c h =
    ground (arith, load_client_config_names read unmarshal flags.config c)

make_client_lem :
    (c : ClientConfig) (w : Net)
    → c.server ≢ []
    → c.local ≢ []
    → ((make_client c w).server_addr ≢ [])
      × ((make_client c w).local_addr ≢ [])
      × ((make_client c w).use_tls ≡ true → (make_client c w).server_name ≢ [])
      × ((make_client c w).control_conn ≡ none)
unfolding make_client sni
make_client_lem c w s l = ground arith

-- Whether its configuration comes from a file or from flags, a client that starts has a server's
-- and a local address, with TLS also a name to expect, and no control connection yet.
pub client_main_lem :
    (read : Bytes → Result Bytes) (unmarshal : Bytes → Result ClientConfig)
    (flags : Flags ClientConfig) (w : Net) (t : Client)
    → client_main read unmarshal flags w ≡ loaded t
    → (t.server_addr ≢ [])
      × (t.local_addr ≢ [])
      × (t.use_tls ≡ true → t.server_name ≢ [])
      × (t.control_conn ≡ none)
unfolding client_main
client_main_lem read unmarshal flags w t h =
    go (client_config read unmarshal flags) (client_config_names read unmarshal flags) h
  where
    go :
        (r : Loaded ClientConfig)
        → ((c : ClientConfig) → r ≡ loaded c → (c.server ≢ []) × (c.local ≢ []))
        → elim r [ refused e ↦ refused e | loaded c ↦ loaded (make_client c w) ] ≡ loaded t
        → (t.server_addr ≢ [])
          × (t.local_addr ≢ [])
          × (t.use_tls ≡ true → t.server_name ≢ [])
          × (t.control_conn ≡ none)
    go (refused e) names h = absurd (cc h)
    go (loaded c) names h =
        let e : make_client c w ≡ t = cc h in
        rw (← e) (make_client_lem c w (names c refl).0 (names c refl).1)

-- Flags that name both addresses and no TLS give a plain client.
pub client_main_flags :
    (read : Bytes → Result Bytes) (unmarshal : Bytes → Result ClientConfig) (c : ClientConfig)
    (w : Net)
    → c.server ≢ []
    → c.local ≢ []
    → c.tls.enabled ≡ false
    → client_main read unmarshal (record { config = []; given = c }) w
      ≡ loaded (new_client c.server c.local c.remote_port w)
unfolding client_main client_config make_client
client_main_flags read unmarshal c w s l plain = ground arith
