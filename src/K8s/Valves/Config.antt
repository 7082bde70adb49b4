-- ===== src/K8s/Valves/Config.antt =====
-- internal/k8s/mqttvalve_reconciler.go: the configuration that a valve's spec gives a pipeline.
use valve_controller.Common.{ℕ, ◌^◌, ◌<◌, ◌≡◌, ℤ, pos, negsuc, scale, to_int64, Bool, arith}
use valve_controller.Device.{ValveConfig}
use valve_controller.K8s.{MqttValveSpec}
use valve_controller.K8s.Valves.{or_default, seconds, valve_config}

-- An `int32`.
abbrev pub IsInt32 : ℤ → Type 0
IsInt32 (pos n) = n < 2 ^ 31
IsInt32 (negsuc n) = n < 2 ^ 31

-- One that is not negative.
abbrev pub IsNatural32 : ℤ → Type 0
IsNatural32 (pos n) = n < 2 ^ 31
IsNatural32 (negsuc n) = ⊥

-- The seconds of a spec, which are an `int32`, never overflow the nanoseconds of a duration.
pub seconds_exact : (n : ℤ) → IsInt32 n → seconds n ≡ scale 1_000_000_000 n
unfolding seconds to_int64
seconds_exact (pos n) h = ground arith
seconds_exact (negsuc n) h = ground arith

-- What the schema of the resource admits, or the zero of a field that was left out.
pub record IsAdmitted (spec : MqttValveSpec) : Type 0 where
  pub retries : IsNatural32 spec.retry_count
  pub timeout : IsNatural32 spec.command_timeout_seconds
  pub interval : IsNatural32 spec.keep_closed_interval_seconds
  pub limit : IsNatural32 spec.max_open_duration_seconds
  pub repeats : IsNatural32 spec.close_repeat_count

-- Positive, and within an `int64`.
abbrev pub IsPositive : ℤ → Type 0
IsPositive (pos n) = (0 < n) × (n < 2 ^ 63)
IsPositive (negsuc n) = ⊥

-- Not negative, and within an `int64`.
abbrev pub IsNatural : ℤ → Type 0
IsNatural (pos n) = n < 2 ^ 63
IsNatural (negsuc n) = ⊥

pub record IsUsable (cfg : ValveConfig) : Type 0 where
  pub retries : IsPositive cfg.retry_count
  pub timeout : IsPositive cfg.command_timeout
  pub interval : IsPositive cfg.keep_closed_interval
  pub limit : IsNatural cfg.max_open_duration
  pub repeats : IsPositive cfg.close_repeat_count

or_default-IsPositive :
    (n : ℤ) (d : ℕ) → IsNatural32 n → 0 < d → d < 2 ^ 63 → IsPositive (or_default n (pos d))
or_default-IsPositive (pos n) d h p q = ground arith
or_default-IsPositive (negsuc n) d h p q = absurd h

seconds-IsPositive :
    (n : ℤ) (d : ℕ)
    → IsNatural32 n
    → 0 < d
    → d < 2 ^ 63
    → IsPositive (or_default (seconds n) (pos d))
unfolding seconds to_int64
seconds-IsPositive (pos n) d h p q = ground arith
seconds-IsPositive (negsuc n) d h p q = absurd h

seconds-IsNatural : (n : ℤ) → IsNatural32 n → IsNatural (seconds n)
unfolding seconds to_int64
seconds-IsNatural (pos n) h = ground arith
seconds-IsNatural (negsuc n) h = absurd h

-- For a spec without negative numbers the configuration makes at least one attempt and sends at
-- least one close in each, waits for a positive time, pings at a positive interval, and has no
-- negative limit; no duration overflows an int64.
pub valve_config-IsUsable :
    (spec : MqttValveSpec) (off : Bool) → IsAdmitted spec → IsUsable (valve_config spec off)
unfolding valve_config
valve_config-IsUsable spec off h = record {
  retries = or_default-IsPositive spec.retry_count 3 h.retries (omega arith) (omega arith);
  timeout =
      seconds-IsPositive spec.command_timeout_seconds 30_000_000_000 h.timeout (omega arith)
        (omega arith);
  interval =
      seconds-IsPositive spec.keep_closed_interval_seconds 300_000_000_000 h.interval (omega arith)
        (omega arith);
  limit = seconds-IsNatural spec.max_open_duration_seconds h.limit;
  repeats = or_default-IsPositive spec.close_repeat_count 3 h.repeats (omega arith) (omega arith);
}
