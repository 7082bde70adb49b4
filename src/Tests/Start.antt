-- ===== src/Tests/Start.antt =====
-- Runs of the program from its start to its end.
use valve_controller.Common.{◌≡◌, refl, pos, true, ◌⊎◌, [], ◌∷◌, In, none, some, if◌then◌else◌}
use valve_controller.Common.Text.{text, eq_text}
use valve_controller.Common.Dict.{insert, lookup}
use valve_controller.Mqtt.Bridge.{BridgeConfig, new_bridge_client, disconnect}
use valve_controller.Mqtt.Manager.{upsert, new_manager, stop_all}
use valve_controller.Program.{
  Outside, TlsConfig, require_and_verify_client_cert, tls13, launches_api, exits, creates_manager,
  registers_valves, registers_bridges, adds_healthz, adds_readyz, starts_manager, shuts_down_api,
  stops_client, set_up, run_each, serve_tls, serve, host_name, tls_config, default_flags, main,
}
use valve_controller.Program.Tls.{IsMutual}
use valve_controller.Program.Serving.{Exits, Stops, IsSetUp, main-Ends, main_serves_iff}

-- One bridge is connected while the controllers run.
abbrev first_bridge : BridgeConfig
first_bridge = record {
  bridge_name = text "n/b";
  host = text "broker";
  port = pos 1883;
  username = [];
  password = [];
  topics = [];
  hostname = [];
  max_reconnect_backoff = pos 60;
}

abbrev well : Outside
well = record {
  hostname = [];
  load_key_pair = λ cert key. some (text "pair");
  read_file = λ name. if eq_text name (text "/tls/ca.crt") then some (text "pem") else none;
  certificates = λ pem. pem ∷ [];
  manager_created = true;
  valves_registered = true;
  bridges_registered = true;
  healthz_added = true;
  readyz_added = true;
  reconciled = λ mgr. (upsert first_bridge true mgr).1;
  started = true;
}

-- The configuration that the files of `well` give.
abbrev cfg_well : TlsConfig
cfg_well = record {
  certificates = text "pair" ∷ [];
  client_auth = require_and_verify_client_cert;
  client_cas = text "pem" ∷ [];
  min_version = tls13;
}

main-Ends_example : Exits (main default_flags well) ⊎ Stops well (main default_flags well)
main-Ends_example = main-Ends default_flags well

well-IsMutual : IsMutual default_flags well cfg_well
unfolding default_flags eq_text
well-IsMutual = record {
  cert = text "pair";
  loaded = refl;
  pem = text "pem";
  read = refl;
  trusted = λ e. cc;
  config = refl;
}

well-IsSetUp : IsSetUp well
well-IsSetUp = record {
  manager = refl;
  valves = refl;
  bridges = refl;
  healthz = refl;
  readyz = refl;
}

main_serves_iff_example :
    In (launches_api default_flags.api_addr cfg_well) (main default_flags well)
main_serves_iff_example =
    (main_serves_iff default_flags well default_flags.api_addr cfg_well).1
      (refl, well-IsMutual, well-IsSetUp)

abbrev without_ca : Outside
without_ca = record well { read_file = λ name. none }

-- Without the file of the client CA, the controllers are registered and nothing is served.
without_ca_exits :
    main default_flags without_ca
    ≡ creates_manager (text ":8080") (text ":8081")
      ∷ registers_valves
      ∷ registers_bridges
      ∷ adds_healthz
      ∷ adds_readyz
      ∷ exits 1
      ∷ []
unfolding main set_up run_each serve_tls tls_config default_flags
without_ca_exits = refl

-- A run that ends well disconnects the client of the bridge, and does that last.
well_stops :
    main default_flags well
    ≡ creates_manager (text ":8080") (text ":8081")
      ∷ registers_valves
      ∷ registers_bridges
      ∷ adds_healthz
      ∷ adds_readyz
      ∷ launches_api (text ":8443") cfg_well
      ∷ starts_manager
      ∷ shuts_down_api 30
      ∷ stops_client
          (disconnect (new_bridge_client (record first_bridge { hostname = text "unknown" })))
      ∷ []
unfolding main set_up run_each serve_tls serve host_name tls_config default_flags eq_text stop_all
    new_manager upsert insert lookup
well_stops = refl
