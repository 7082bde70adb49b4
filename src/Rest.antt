-- ===== src/Rest.antt =====
-- internal/api: the requests and responses of the REST API, as the handlers see them.
-- What net/http and chi make of a message is the record `HttpRequest`. A body is the value that is
-- encoded; instants and durations in it are left unformatted.
pub mod Views
pub mod Handlers
pub mod Pagination
use valve_controller.Common.{ℕ, ℤ, Bool, List, Option}
use valve_controller.Common.Text.{Text}
use valve_controller.Common.Dict.{Dict}
use valve_controller.Device.{Duration, Time}
use valve_controller.Mqtt.Manager.{Manager}
use valve_controller.Scheduler.Action.{Failure}
use valve_controller.Scheduler.Valves.{Fault, Scheduler}

pub record HttpRequest : Type 0 where
  pub query : Text → Text  -- r.URL.Query().Get, "" where it is missing
  pub header : Text → Text  -- r.Header.Get
  pub verified_chains : Option ℕ  -- len(r.TLS.VerifiedChains), `none` without TLS

-- The routes of `NewRouter`, with their URL parameters.
pub data Route : Type 0 where
  healthz readyz metrics list_valves_route : Route
  get_valve_route open_route close_route list_actions_route : (name : Text) → Route
  get_action_route : (name action_id : Text) → Route

pub record ActionResponse : Type 0 where
  pub id : Text
  pub valve_name : Text
  pub type : Text
  pub state : Text
  pub duration : Option Duration
  pub requested_at : Time
  pub fulfilled_at : Option Time
  pub closed_at : Option Time
  pub expires_at : Option Time
  pub failed_at : Option Time
  pub attempts : ℕ
  pub error : Option Failure

pub record ValveResponse : Type 0 where
  pub name : Text
  pub namespace : Text
  pub state : Text
  pub disabled : Bool
  pub friendly_name : Text
  pub bridge_name : Text
  pub link_quality : ℤ
  pub battery_percentage : ℤ
  pub reachable : Bool
  pub daily_irrigation_volume : ℕ
  pub last_valve_open_duration : ℤ
  pub last_open_time : Option Time
  pub last_close_time : Option Time
  pub current_action : Option ActionResponse

pub record CollectionResponse (A : Type 0) : Type 0 where
  pub items : List A
  pub total : ℕ
  pub limit : ℕ
  pub offset : ℕ

pub data Body : Type 0 where
  fault_body : Fault → (code : Text) → Body  -- errorResponse
  text_body : (error code : Text) → Body  -- the literals given to http.Error
  status_body : Text → Body
  ready_body : Text → Dict Bool → Body
  metrics_body : Body  -- what the Prometheus handler writes
  valve_body : ValveResponse → Body
  valves_body : CollectionResponse ValveResponse → Body
  action_body : ActionResponse → Body
  actions_body : CollectionResponse ActionResponse → Body

pub record Response : Type 0 where
  pub status : ℕ
  pub body : Body

-- `Handler`.
pub record Server : Type 0 where
  pub sched : Scheduler
  pub mqtt : Manager
