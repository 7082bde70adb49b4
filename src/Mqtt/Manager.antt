-- ===== src/Mqtt/Manager.antt =====
-- internal/mqtt/manager.go: one client for each bridge.
pub mod Clients
pub mod Identity
use valve_controller.Common.{
  ℤ, eqb_ℤ, Bool, true, false, ◌&&◌, List, [], ◌∷◌, Option, none, some, map, if◌then◌else◌, ◌==◌,
}
use valve_controller.Common.Text.{Text, eq_text}
use valve_controller.Common.Dict.{Dict, lookup, insert, delete}
use valve_controller.Mqtt.Bridge.{
  TopicEntry, BridgeConfig, BridgeClient, new_bridge_client, disconnect,
}

pub record Manager : Type 0 where
  pub hostname : Text
  pub bridges : Dict BridgeClient

-- `NewManager`.
unfoldable pub new_manager : Text → Manager
new_manager hostname = record { hostname = hostname; bridges = [] }

abbrev pub same_topic : TopicEntry → TopicEntry → Bool
same_topic a b = eq_text a.topic b.topic && (eq_text a.type b.type && a.qos == b.qos)

-- `topicsEqual`.
unfoldable pub topics_equal : List TopicEntry → List TopicEntry → Bool
topics_equal [] [] = true
topics_equal [] (b ∷ new) = false
topics_equal (a ∷ old) [] = false
topics_equal (a ∷ old) (b ∷ new) = same_topic a b && topics_equal old new

-- The test by which `Upsert` keeps a client.
unfoldable pub same_config : BridgeConfig → BridgeConfig → Bool
same_config old cfg =
    eq_text old.host cfg.host
    && (eqb_ℤ old.port cfg.port
        && (eq_text old.username cfg.username && topics_equal old.topics cfg.topics))

-- What stands in the map while `Upsert` connects: an old client is disconnected, and stays.
abbrev pub disconnect_at : Text → Dict BridgeClient → Dict BridgeClient
disconnect_at k m = elim (lookup k m) [ none ↦ m | some bc ↦ insert k (disconnect bc) m ]

abbrev pub connect_new : BridgeConfig → Bool → Manager → Bool × Manager
connect_new cfg connects mgr =
    let left = disconnect_at cfg.bridge_name mgr.bridges in
    if connects
    then (true, record mgr { bridges = insert cfg.bridge_name (new_bridge_client cfg) left })
    else (false, record mgr { bridges = left })

-- `Upsert`, given whether `Connect` succeeds: whether there is no error, and the new state.
unfoldable pub upsert : BridgeConfig → (connects : Bool) → Manager → Bool × Manager
upsert given connects mgr =
    let cfg = record given { hostname = mgr.hostname } in
    elim (lookup cfg.bridge_name mgr.bridges) [
      | none ↦ connect_new cfg connects mgr
      | some old ↦ if same_config old.cfg cfg then (true, mgr) else connect_new cfg connects mgr
    ]

-- `Remove`: the client that it disconnects, if there is one, and the new state.
unfoldable pub remove : Text → Manager → Option BridgeClient × Manager
remove bridge_name mgr = (
  elim (lookup bridge_name mgr.bridges) [ none ↦ none | some bc ↦ some (disconnect bc) ],
  record mgr { bridges = delete bridge_name mgr.bridges },
)

abbrev pub states : Dict BridgeClient → Dict Bool
states [] = []
states ((k, bc) ∷ m) = (k, bc.connected) ∷ states m

-- `ConnectionStates`.
unfoldable pub connection_states : Manager → Dict Bool
connection_states mgr = states mgr.bridges

abbrev pub clients : Dict BridgeClient → List BridgeClient
clients [] = []
clients ((_, bc) ∷ m) = bc ∷ clients m

-- `StopAll`: the clients that it disconnects, and the new state.
unfoldable pub stop_all : Manager → List BridgeClient × Manager
stop_all mgr = (map disconnect (clients mgr.bridges), record mgr { bridges = [] })
