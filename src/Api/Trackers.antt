-- ===== src/Api/Trackers.antt =====
-- `InMemoryTrackerRepository` of api/trackers_repository.py. `now` is the clock's reading.
pub mod Standing
use gps_tracking.Prelude.{
  ℕ, ◌+◌, Bool, true, false, Option, none, some, List, [], ◌∷◌, map, ltb, if◌then◌else◌,
}
use gps_tracking.Prelude.Sorting.{sorted}
use gps_tracking.Prelude.Dict.{lookup, store, erase}
use gps_tracking.Protocol.Codec.Cell.{Text}
use gps_tracking.Gateway.Text.{text_keys}

pub data Source : Type 0 where
  existing owner admin auto : Source

-- `AllowedTrackerOut`, `LoginAttemptOut` and `TrackerSettingsOut` of api/schemas.py.
pub record AllowedTracker : Type 0 where
  pub device_id : Text
  pub added_at : ℕ
  pub added_by : Option Text
  pub source : Source

pub record LoginAttempt : Type 0 where
  pub device_id : Text
  pub first_seen : ℕ
  pub last_seen : ℕ
  pub attempts : ℕ
  pub last_peer : Option Text

pub record TrackerSettings : Type 0 where
  pub auto_approve : Bool
  pub changed_at : Option ℕ
  pub changed_by : Option Text

pub record Trackers : Type 0 where
  pub allowed : List (Text × AllowedTracker)
  pub attempts : List (Text × LoginAttempt)
  pub settings : TrackerSettings

abbrev pub new_trackers : Trackers
new_trackers = record {
  allowed = [];
  attempts = [];
  settings = record { auto_approve = false; changed_at = none; changed_by = none };
}

pub set_auto_approve : Trackers → ℕ → Bool → Option Text → TrackerSettings × Trackers
set_auto_approve t now enabled requester =
    let s : TrackerSettings = record {
      auto_approve = enabled;
      changed_at = some now;
      changed_by = requester;
    } in
    (s, record t { settings = s })

abbrev pub values : {V : Type 0} → List (Text × V) → List V
values {V} d = map (λ (e : Text × V). e.1) d

-- `sorted(…, reverse=True)` keeps the places of equal items, too.
pub list_allowed : Trackers → List AllowedTracker
list_allowed t = sorted (λ (a b : AllowedTracker). ltb b.added_at a.added_at) (values t.allowed)

pub list_attempts : Trackers → List LoginAttempt
list_attempts t = sorted (λ (a b : LoginAttempt). ltb b.last_seen a.last_seen) (values t.attempts)

-- `if device_id not in self._allowed: …`, with the entry that it has then.
pub admit_entry : Trackers → AllowedTracker → Option AllowedTracker → AllowedTracker × Trackers
admit_entry t new none = (new, record t { allowed = store text_keys t.allowed new.device_id new })
admit_entry t new (some old) = (old, t)

pub allow : Trackers → ℕ → Text → Option Text → AllowedTracker × Trackers
allow t now device_id requester =
    let t' = record t { attempts = erase text_keys t.attempts device_id } in
    let new : AllowedTracker = record {
      device_id = device_id;
      added_at = now;
      added_by = requester;
      source = admin;
    } in
    admit_entry t' new (lookup text_keys t.allowed device_id)

abbrev pub is_some : {V : Type 0} → Option V → Bool
is_some none = false
is_some (some v) = true

pub disallow : Trackers → Text → Bool × Trackers
disallow t device_id = (
  is_some (lookup text_keys t.allowed device_id),
  record t { allowed = erase text_keys t.allowed device_id },
)

pub dismiss_attempt : Trackers → Text → Bool × Trackers
dismiss_attempt t device_id = (
  is_some (lookup text_keys t.attempts device_id),
  record t { attempts = erase text_keys t.attempts device_id },
)

pub next_attempt : ℕ → Text → Option Text → Option LoginAttempt → LoginAttempt
next_attempt now device_id peer none = record {
  device_id = device_id;
  first_seen = now;
  last_seen = now;
  attempts = 1;
  last_peer = peer;
}
next_attempt now device_id peer (some current) = record {
  device_id = device_id;
  first_seen = current.first_seen;
  last_seen = now;
  attempts = current.attempts + 1;
  last_peer = peer;
}

pub record_attempt : Trackers → ℕ → Text → Option Text → Trackers
record_attempt t now device_id peer =
    let a = next_attempt now device_id peer (lookup text_keys t.attempts device_id) in
    record t { attempts = store text_keys t.attempts device_id a }

-- `gateway_admit`, by whether the tracker is allowed and whether newcomers are approved.
pub admit_unknown : Trackers → ℕ → Text → Option Text → Bool → Bool × Trackers
admit_unknown t now device_id peer true =
    let new : AllowedTracker = record {
      device_id = device_id;
      added_at = now;
      added_by = none;
      source = auto;
    } in
    (
      true,
      record t {
        attempts = erase text_keys t.attempts device_id;
        allowed = store text_keys t.allowed device_id new;
      },
    )
admit_unknown t now device_id peer false = (false, record_attempt t now device_id peer)

pub admit_known : Trackers → ℕ → Text → Option Text → Option AllowedTracker → Bool × Trackers
admit_known t now device_id peer (some a) = (true, t)
admit_known t now device_id peer none = admit_unknown t now device_id peer t.settings.auto_approve

pub gateway_admit : Trackers → ℕ → Text → Option Text → Bool × Trackers
gateway_admit t now device_id peer =
    admit_known t now device_id peer (lookup text_keys t.allowed device_id)
