-- ===== src/Handler.antt =====
-- include/eventstream/core/processor/handler.hpp: what is done with an event of a topic.
-- A handler's answer is `none` where it reads outside the event's body. A message that `fmt::format`
-- makes of numbers is these with their template. `memcpy` into a `uint32_t` is read for a
-- little-endian host.
pub mod Lookup
pub mod Safety
mod Tests
use event_stream_core.Common.{
  ℕ, ◌+◌, ◌*◌, ◌^◌, Bool, true, false, ◌&&◌, Option, none, some, List, [], ◌∷◌, ltb, leb, ◌==◌,
  if◌then◌else◌, length, get_elem?, Bytes, codes, bytes_eq,
}
use event_stream_core.Event.{Event}

pub data AlertLevel : Type 0 where
  info warning critical_alert emergency : AlertLevel

pub data Message : Type 0 where
  text : Bytes → Message
  formatted : Bytes → List ℕ → Message

pub record ValidationResult : Type 0 where
  pub valid : Bool
  pub error : Bytes

abbrev pub valid_ok : ValidationResult
valid_ok = record { valid = true; error = [] }

abbrev pub valid_fail : Bytes → ValidationResult
valid_fail msg = record { valid = false; error = msg }

pub data HandleOutcome : Type 0 where
  success fail alert dropped : HandleOutcome

pub record HandleResult : Type 0 where
  pub outcome : HandleOutcome
  pub alert_level : AlertLevel
  pub message : Message

abbrev pub result_success : Message → HandleResult
result_success msg = record {
  outcome = HandleOutcome.success;
  alert_level = AlertLevel.info;
  message = msg;
}

abbrev pub result_alert : AlertLevel → Message → HandleResult
result_alert level msg = record {
  outcome = HandleOutcome.alert;
  alert_level = level;
  message = msg;
}

-- `EventHandler`; `name` is for the log.
pub record EventHandler : Type 0 where
  pub validate : Event → ValidationResult
  pub check_rules : Event → Option ValidationResult
  pub handle : Event → Option HandleResult

abbrev pub base_validate : Event → ValidationResult
base_validate e = if leb (length e.topic) 0 then valid_fail (codes "empty topic") else valid_ok

abbrev pub base_check_rules : Event → Option ValidationResult
base_check_rules e = some valid_ok

abbrev pub nonempty_body : Bytes → Event → ValidationResult
nonempty_body msg e = if leb (length e.body) 0 then valid_fail msg else valid_ok

abbrev pub default_handler : EventHandler
default_handler = record {
  validate = base_validate;
  check_rules = base_check_rules;
  handle = λ e. some (result_success (text []));
}

-- A read of `body[0]`.
unfoldable pub with_first {ℓ} : {A : Type ℓ} → Option ℕ → (ℕ → A) → Option A
with_first none f = none
with_first (some byte) f = some (f byte)

abbrev pub temperature_rules : ℕ → ValidationResult
temperature_rules temp =
    if ltb 150 temp then valid_fail (codes "temperature out of physical range") else valid_ok

abbrev pub temperature_result : ℕ → HandleResult
temperature_result temp =
    if ltb 100 temp
    then result_alert AlertLevel.critical_alert
        (formatted (codes "Temperature critical: {}C") (temp ∷ []))
    else if ltb 80 temp
    then result_alert AlertLevel.warning (formatted (codes "Temperature warning: {}C") (temp ∷ []))
    else result_success (text [])

unfoldable pub sensor_temperature_handler : EventHandler
unfolding with_first
sensor_temperature_handler = record {
  validate = nonempty_body (codes "empty body for temperature sensor");
  check_rules = λ e. with_first (get_elem? e.body 0) temperature_rules;
  handle = λ e. with_first (get_elem? e.body 0) temperature_result;
}

abbrev pub pressure_result : ℕ → HandleResult
pressure_result pressure =
    if ltb 200 pressure
    then result_alert AlertLevel.emergency
        (formatted (codes "Pressure emergency: {} bar") (pressure ∷ []))
    else if ltb 150 pressure
    then result_alert AlertLevel.warning (formatted (codes "Pressure high: {} bar") (pressure ∷ []))
    else result_success (text [])

unfoldable pub sensor_pressure_handler : EventHandler
unfolding with_first
sensor_pressure_handler = record {
  validate = nonempty_body (codes "empty body for pressure sensor");
  check_rules = base_check_rules;
  handle = λ e. with_first (get_elem? e.body 0) pressure_result;
}

-- `memcpy` of the first four bytes.
abbrev pub amount_of : Bytes → Option ℕ
amount_of (a ∷ b ∷ c ∷ d ∷ rest) = some (a + b * 2 ^ 8 + c * 2 ^ 16 + d * 2 ^ 24)
amount_of (a ∷ b ∷ c ∷ []) = none
amount_of (a ∷ b ∷ []) = none
amount_of (a ∷ []) = none
amount_of [] = none

abbrev pub amount_rules : ℕ → ValidationResult
amount_rules amount =
    if amount == 0
    then valid_fail (codes "payment amount is zero")
    else if ltb 1000000 amount
    then valid_fail (codes "payment amount exceeds limit")
    else valid_ok

unfoldable pub payment_handler : EventHandler
unfolding with_first
payment_handler = record {
  validate =
      λ e. if ltb (length e.body) 4 then valid_fail (codes "payment body too short") else valid_ok;
  check_rules = λ e. with_first (amount_of e.body) amount_rules;
  handle = λ e.
      with_first (amount_of e.body)
        (λ amount. result_success (formatted (codes "payment_ok amount={}") (amount ∷ [])));
}

unfoldable pub audit_handler : EventHandler
audit_handler = record {
  validate = nonempty_body (codes "empty audit log body");
  check_rules = base_check_rules;
  handle = λ e. some (result_success (text []));
}

-- The registered handlers by prefix; the order is the order in which the hash map is walked.
abbrev pub Registry : Type 0
Registry = List (Bytes × EventHandler)

unfoldable pub register_handler : Bytes → EventHandler → Registry → Registry
register_handler topic_prefix h [] = (topic_prefix, h) ∷ []
register_handler topic_prefix h ((p, g) ∷ registry) =
    if bytes_eq p topic_prefix
    then (p, h) ∷ registry
    else (p, g) ∷ register_handler topic_prefix h registry

-- `handlers_.find(topic)`.
unfoldable pub find_handler : Bytes → Registry → Option EventHandler
find_handler topic [] = none
find_handler topic ((p, h) ∷ registry) =
    if bytes_eq p topic then some h else find_handler topic registry

-- `topic.rfind(prefix, 0) == 0`.
unfoldable pub starts_with : Bytes → Bytes → Bool
starts_with [] topic = true
starts_with (x ∷ prefix) [] = false
starts_with (x ∷ prefix) (y ∷ topic) = x == y && starts_with prefix topic

-- The loop, with the best handler so far and its prefix's length.
unfoldable pub best_handler : Bytes → Registry → Option EventHandler → ℕ → Option EventHandler
best_handler topic [] best best_len = best
best_handler topic ((prefix, h) ∷ registry) best best_len =
    let better = best_handler topic registry (some h) (length prefix) in
    let same = best_handler topic registry best best_len in
    if starts_with prefix topic && ltb best_len (length prefix) then better else same

unfoldable pub found_or : Option EventHandler → Option EventHandler → Option EventHandler
found_or none other = other
found_or (some h) other = some h

unfoldable pub get_handler : Bytes → Registry → Option EventHandler
unfolding found_or best_handler
get_handler topic registry =
    found_or (find_handler topic registry) (best_handler topic registry none 0)

unfoldable pub or_default : Option EventHandler → EventHandler
or_default none = default_handler
or_default (some h) = h

unfoldable pub get_or_default : Bytes → Registry → EventHandler
unfolding or_default
get_or_default topic registry = or_default (get_handler topic registry)

unfoldable pub register_default_handlers : Registry → Registry
unfolding register_handler sensor_temperature_handler sensor_pressure_handler payment_handler
    audit_handler
register_default_handlers registry = register_handler (codes "audit") audit_handler (
    register_handler (codes "payment") payment_handler (
      register_handler (codes "sensor/pressure") sensor_pressure_handler
        (register_handler (codes "sensor/temperature") sensor_temperature_handler registry)))
