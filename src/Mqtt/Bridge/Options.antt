-- ===== src/Mqtt/Bridge/Options.antt =====
-- internal/mqtt/bridge.go: the options that `newBridgeClient` gives to the Paho client.
use valve_controller.Common.{
  ℤ, pos, scale, to_int64, eqb_ℤ, Bool, true, ◌++◌, Option, none, some, if◌then◌else◌,
}
use valve_controller.Common.Text.{Text, text, is_empty}
use valve_controller.Device.{Duration}
use valve_controller.Mqtt.Bridge.{BridgeConfig}

pub record ClientOptions : Type 0 where
  pub broker : Text × ℤ  -- of the URL "tcp://<host>:<port>"
  pub client_id : Text
  pub credentials : Option (Text × Text)
  pub auto_reconnect : Bool
  pub max_reconnect_interval : Duration
  pub connect_retry_interval : Duration
  pub connect_retry : Bool

unfoldable pub client_id : BridgeConfig → Text
client_id cfg = text "valve-controller-" ++ (cfg.hostname ++ (text "-" ++ cfg.bridge_name))

-- `maxBackoff`.
unfoldable pub max_backoff : BridgeConfig → Duration
max_backoff cfg =
    let d = to_int64 (scale 1_000_000_000 cfg.max_reconnect_backoff) in
    if eqb_ℤ d (pos 0) then pos 60_000_000_000 else d

unfoldable pub client_options : BridgeConfig → ClientOptions
client_options cfg = record {
  broker = (cfg.host, cfg.port);
  client_id = client_id cfg;
  credentials = if is_empty cfg.username then none else some (cfg.username, cfg.password);
  auto_reconnect = true;
  max_reconnect_interval = max_backoff cfg;
  connect_retry_interval = pos 1_000_000_000;
  connect_retry = true;
}
