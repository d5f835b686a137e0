-- ===== src/Common/Types.antt =====
-- src/health_monitor/common/types.py, with the Python values that payloads and metrics hold.
pub mod Laws
pub mod Tests
use ca1_health_monitor.Prelude.{
  ℕ, ◌+◌, ◌/◌, suc, ℤ, pos, negsuc, sub_ℕ, Result, raised, returned, ◌+ℤ◌, String, Bool, true,
  false, Option, none, some, List, [], ◌∷◌, ltb, if◌then◌else◌, ◌==◌,
}
use ca1_health_monitor.Prelude.Text.Parse.{parse_int}
use ca1_health_monitor.Prelude.Text.{append, concat}

-- An exception that leaves a call, by its class.
pub data Exception : Type 0 where
  type_error value_error other_error : Exception

-- What a `Dict[str, Any]` of the program holds. A float is a number of millionths.
mutual
  pub data Value : Type 0 where
    none_value : Value
    bool : Bool → Value
    int : ℤ → Value
    float : ℤ → Value
    str : String → Value
    list : Items → Value
    dict : Fields → Value

  pub data Items : Type 0 where
    no_items : Items
    item : Value → Items → Items

  pub data Fields : Type 0 where
    no_fields : Fields
    field : String → Value → Fields → Fields

abbrev pub Payload : Type 0
Payload = List (String × Value)

-- `dict(d)`, as a value
unfoldable pub as_fields : Payload → Fields
as_fields [] = no_fields
as_fields ((k, v) ∷ rest) = field k v (as_fields rest)

-- Python's `int` of a value; a float is cut off towards zero.
unfoldable pub to_int : Value → Result Exception ℤ
to_int none_value = raised type_error
to_int (bool b) = returned (pos (if b then 1 else 0))
to_int (int n) = returned n
to_int (float (pos n)) = returned (pos (n / 1_000_000))
to_int (float (negsuc n)) = returned (sub_ℕ 0 (suc n / 1_000_000))
to_int (str s) = elim (parse_int s) [ none ↦ raised value_error | some n ↦ returned n ]
to_int (list xs) = raised type_error
to_int (dict fs) = raised type_error

-- `class HealthState(enum.IntEnum)`
pub data HealthState : Type 0 where
  ok degraded fault unknown : HealthState

unfoldable pub severity : HealthState → ℕ
severity ok = 0
severity degraded = 1
severity fault = 2
severity unknown = 3

-- The property `label`.
unfoldable pub label : HealthState → String
label ok = "ok"
label degraded = "degraded"
label fault = "fault"
label unknown = "unknown"

-- Python's `max` of two states: the first, unless the second is greater.
unfoldable pub max_state : HealthState → HealthState → HealthState
unfolding severity
max_state a b = if ltb (severity a) (severity b) then b else a

-- `a is b`: the members of an enumeration are single objects.
unfoldable pub same_state : HealthState → HealthState → Bool
same_state ok ok = true
same_state degraded degraded = true
same_state fault fault = true
same_state unknown unknown = true
same_state _ _ = false

pub record CheckResult : Type 0 where
  pub check : String
  pub state : HealthState
  pub subject : String
  pub detail : String
  pub metrics : Payload
  pub monotonic_ts : ℤ

-- `CheckResult.topic`
unfoldable pub topic : CheckResult → String
topic r =
    if r.subject == ""
    then concat ("health." ∷ r.check ∷ [])
    else concat ("health." ∷ r.check ∷ "." ∷ r.subject ∷ [])

-- `CheckResult.as_payload`
unfoldable pub result_payload : CheckResult → Payload
unfolding severity label as_fields
result_payload r =
    ("check", str r.check)
    ∷ ("subject", str r.subject)
    ∷ ("state", str (label r.state))
    ∷ ("severity", int (pos (severity r.state)))
    ∷ ("detail", str r.detail)
    ∷ ("metrics", dict (as_fields r.metrics))
    ∷ ("monotonic_ts", float r.monotonic_ts)
    ∷ []

pub record CheckStats : Type 0 where
  pub runs : ℕ
  pub faults : ℕ
  pub degraded_runs : ℕ
  pub skipped_slots : ℤ
  pub last_state : Option HealthState
  pub last_run_monotonic : Option ℤ

-- The defaults of the fields.
abbrev pub no_stats : CheckStats
no_stats = record {
  runs = 0;
  faults = 0;
  degraded_runs = 0;
  skipped_slots = pos 0;
  last_state = none;
  last_run_monotonic = none;
}

-- The branches on `result.state`.
abbrev count_state : HealthState → CheckStats → CheckStats
count_state fault s = record s { faults = s.faults + 1 }
count_state degraded s = record s { degraded_runs = s.degraded_runs + 1 }
count_state ok s = s
count_state unknown s = s

-- `CheckStats.record`
unfoldable pub record_run : CheckStats → Option CheckResult → ℤ → CheckStats
record_run s none missed = record s { skipped_slots = s.skipped_slots +ℤ missed }
record_run s (some r) missed = count_state r.state (record s {
  skipped_slots = s.skipped_slots +ℤ missed;
  runs = s.runs + 1;
  last_state = some r.state;
  last_run_monotonic = some r.monotonic_ts;
})

-- `self.last_state.label if self.last_state else None`: a member that is 0 counts as false.
unfoldable pub state_value : Option HealthState → Value
unfolding label
state_value none = none_value
state_value (some ok) = none_value
state_value (some s) = str (label s)

abbrev time_value : Option ℤ → Value
time_value none = none_value
time_value (some t) = float t

-- `CheckStats.as_payload`
unfoldable pub stats_payload : CheckStats → Payload
unfolding state_value
stats_payload s =
    ("runs", int (pos s.runs))
    ∷ ("faults", int (pos s.faults))
    ∷ ("degraded", int (pos s.degraded_runs))
    ∷ ("skipped_slots", int s.skipped_slots)
    ∷ ("last_state", state_value s.last_state)
    ∷ ("last_run_monotonic", time_value s.last_run_monotonic)
    ∷ []
