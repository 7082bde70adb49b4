-- ===== src/Program.antt =====
-- cmd/controller/main.go, and TLSConfig of internal/api/middleware.go.
-- What the program finds outside (files, the host, the answers of controller-runtime) is the record
-- `Outside`. A run is the list of the calls it makes, to its end.
pub mod Tls
pub mod Serving
use valve_controller.Common.{
  ℕ, Bool, true, false, ◌⊎◌, inl, inr, List, [], ◌∷◌, ◌++◌, Option, none, some, map, if◌then◌else◌,
}
use valve_controller.Common.Text.{Text, text, is_empty}
use valve_controller.Mqtt.Bridge.{BridgeClient}
use valve_controller.Mqtt.Manager.{Manager, new_manager, stop_all}

pub record Flags : Type 0 where
  pub api_addr : Text
  pub metrics_addr : Text
  pub probe_addr : Text
  pub tls_cert : Text
  pub tls_key : Text
  pub tls_client_ca : Text

-- The flags where the command line sets none.
unfoldable pub default_flags : Flags
default_flags = record {
  api_addr = text ":8443";
  metrics_addr = text ":8080";
  probe_addr = text ":8081";
  tls_cert = text "/tls/tls.crt";
  tls_key = text "/tls/tls.key";
  tls_client_ca = text "/tls/ca.crt";
}

pub record Outside : Type 0 where
  pub hostname : Text  -- os.Hostname, "" where it fails
  pub load_key_pair : (cert key : Text) → Option Text
  pub read_file : Text → Option Text
  pub certificates : Text → List Text  -- those that AppendCertsFromPEM finds
  pub manager_created : Bool  -- whether the call returns no error, here and below
  pub valves_registered : Bool
  pub bridges_registered : Bool
  pub healthz_added : Bool
  pub readyz_added : Bool
  pub reconciled : Manager → Manager  -- what the reconcilers do until the manager ends
  pub started : Bool  -- whether mgr.Start ends without an error

pub data ClientAuthType : Type 0 where
  no_client_cert request_client_cert require_any_client_cert : ClientAuthType
  verify_client_cert_if_given require_and_verify_client_cert : ClientAuthType

pub data TlsVersion : Type 0 where
  tls10 tls11 tls12 tls13 : TlsVersion

pub record TlsConfig : Type 0 where
  pub certificates : List Text
  pub client_auth : ClientAuthType
  pub client_cas : List Text
  pub min_version : TlsVersion

pub data TlsFault : Type 0 where
  bad_key_pair unreadable_ca bad_ca : TlsFault

abbrev pub with_pool : Text → List Text → TlsFault ⊎ TlsConfig
with_pool cert [] = inl bad_ca
with_pool cert (c ∷ cs) = inr record {
  certificates = cert ∷ [];
  client_auth = require_and_verify_client_cert;
  client_cas = c ∷ cs;
  min_version = tls13;
}

-- `TLSConfig`.
unfoldable pub tls_config :
    (cert_file key_file client_ca_file : Text) → Outside → TlsFault ⊎ TlsConfig
tls_config cert_file key_file client_ca_file o = elim (o.load_key_pair cert_file key_file) [
  | none ↦ inl bad_key_pair
  | some cert ↦ elim (o.read_file client_ca_file) [
    | none ↦ inl unreadable_ca
    | some ca_pem ↦ with_pool cert (o.certificates ca_pem)
  ]
]

pub data Call : Type 0 where
  creates_manager : (metrics_addr probe_addr : Text) → Call
  registers_valves registers_bridges adds_healthz adds_readyz starts_manager : Call
  launches_api : (addr : Text) → TlsConfig → Call
  shuts_down_api : (seconds : ℕ) → Call
  stops_client : BridgeClient → Call
  exits : (code : ℕ) → Call

-- Each call with whether it succeeds, in the order of the source.
unfoldable pub set_up : Flags → Outside → List (Call × Bool)
set_up f o =
    (creates_manager f.metrics_addr f.probe_addr, o.manager_created)
    ∷ (registers_valves, o.valves_registered)
    ∷ (registers_bridges, o.bridges_registered)
    ∷ (adds_healthz, o.healthz_added)
    ∷ (adds_readyz, o.readyz_added)
    ∷ []

-- `if err := call; err != nil { os.Exit(1) }`, for each of the calls, before the rest.
unfoldable pub run_each : List (Call × Bool) → (rest : List Call) → List Call
run_each [] rest = rest
run_each ((c, succeeds) ∷ cs) rest =
    let after = run_each cs rest in if succeeds then c ∷ after else c ∷ exits 1 ∷ []

unfoldable pub host_name : Outside → Text
host_name o = if is_empty o.hostname then text "unknown" else o.hostname

-- From the launch of the API on.
unfoldable pub serve : Flags → Outside → TlsConfig → List Call
serve f o cfg =
    launches_api f.api_addr cfg
    ∷ starts_manager
    ∷ (if o.started
        then shuts_down_api 30
          ∷ map stops_client (stop_all (o.reconciled (new_manager (host_name o)))).0
        else exits 1 ∷ [])

abbrev pub after_tls : Flags → Outside → TlsFault ⊎ TlsConfig → List Call
after_tls f o (inl e) = exits 1 ∷ []
after_tls f o (inr cfg) = serve f o cfg

unfoldable pub serve_tls : Flags → Outside → List Call
serve_tls f o = after_tls f o (tls_config f.tls_cert f.tls_key f.tls_client_ca o)

-- `main`, once the flags are parsed.
unfoldable pub main : Flags → Outside → List Call
main f o = run_each (set_up f o) (serve_tls f o)
