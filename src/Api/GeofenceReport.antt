-- ===== src/Api/GeofenceReport.antt =====
-- api/geofence_report.py: the crossings of one vehicle and one geofence, and the time inside any geofence.
-- Times are whole seconds.
pub mod Window
use gps_tracking.Prelude.{
  ℕ, suc, ◌+◌, ◌-◌, ◌*◌, Bool, true, false, ◌&&◌, ◌||◌, Option, none, some, List, [], ◌∷◌, ◌++◌,
  length, ltb, leb, ◌==◌, if◌then◌else◌, min, max,
}
use gps_tracking.Prelude.Sorting.{sorted}

abbrev pub Interval : Type 0
Interval = ℕ × ℕ

pub data Kind : Type 0 where
  enter exit : Kind

pub record Crossing : Type 0 where
  pub id : ℕ
  pub kind : Kind
  pub occurred_at : ℕ
  pub alerted : Bool

-- `key=lambda e: (e.occurred_at, e.id)`, and the order of pairs of times.
abbrev pub crossing_before : Crossing → Crossing → Bool
crossing_before c d =
    ltb c.occurred_at d.occurred_at || (c.occurred_at == d.occurred_at && ltb c.id d.id)

abbrev pub interval_before : Interval → Interval → Bool
interval_before (a, b) (c, d) = ltb a c || (a == c && ltb b d)

-- `end = max(since, min(until, now))`
abbrev pub end_of : ℕ → ℕ → ℕ → ℕ
end_of since until now = max since (min until now)

pub in_window : ℕ → ℕ → List Crossing → List Crossing
in_window since until [] = []
in_window since until (c ∷ cs) =
    let rest = in_window since until cs in
    if leb since c.occurred_at && leb c.occurred_at until then c ∷ rest else rest

-- `VehicleStats`, with the local variable `inside_since` and the geofence's count of alerts.
pub record Visits : Type 0 where
  pub entries : ℕ
  pub exits : ℕ
  pub alerts : ℕ
  pub intervals : List Interval
  pub inside_since : Option ℕ
  pub last_event_at : Option ℕ

pub first_exit : List Crossing → Bool
first_exit [] = false
first_exit (c ∷ cs) = is_exit c.kind
  where
    is_exit : Kind → Bool
    is_exit enter = false
    is_exit exit = true

-- `known`, from the last crossing before the window or else from the first one in it.
pub inside_at_start : Option Bool → List Crossing → Bool
inside_at_start none crossings = first_exit crossings
inside_at_start (some known) crossings = known

pub opened : Option ℕ → ℕ → Option ℕ
opened none at_time = some at_time
opened (some since) at_time = some since

pub closed : List Interval → Option ℕ → ℕ → List Interval
closed intervals none at_time = intervals
closed intervals (some since) at_time = intervals ++ ((since, at_time) ∷ [])

abbrev pub count_if : Bool → ℕ
count_if b = if b then 1 else 0

pub on_crossing : Visits → Kind → ℕ → Visits
on_crossing v enter at_time = record v {
  entries = v.entries + 1;
  inside_since = opened v.inside_since at_time;
}
on_crossing v exit at_time = record v {
  exits = v.exits + 1;
  intervals = closed v.intervals v.inside_since at_time;
  inside_since = none;
}

-- The body of `for event in crossings`.
pub cross : ℕ → Visits → Crossing → Visits
cross end v c =
    let moved = on_crossing v c.kind (min c.occurred_at end) in
    record moved { alerts = moved.alerts + count_if c.alerted; last_event_at = some c.occurred_at }

pub cross_all : ℕ → Visits → List Crossing → Visits
cross_all end v [] = v
cross_all end v (c ∷ cs) = cross_all end (cross end v c) cs

-- `if inside_since is not None and end > inside_since: …`
pub at_end : ℕ → Visits → Option ℕ → List Interval
at_end end v none = v.intervals
at_end end v (some since) =
    if ltb since end then v.intervals ++ ((since, end) ∷ []) else v.intervals

abbrev pub no_visits : ℕ → Bool → Visits
no_visits since known = record {
  entries = 0;
  exits = 0;
  alerts = 0;
  intervals = [];
  inside_since = if known then some since else none;
  last_event_at = none;
}

pub seconds_of : List Interval → ℕ
seconds_of [] = 0
seconds_of ((a, b) ∷ intervals) = (b - a) + seconds_of intervals

-- The intervals that one vehicle spent in one geofence.
pub intervals_of : ℕ → ℕ → ℕ → Option Bool → List Crossing → List Interval
intervals_of since until now prior events =
    let crossings = sorted crossing_before (in_window since until events) in
    let v =
      cross_all (end_of since until now) (no_visits since (inside_at_start prior crossings))
        crossings in
    at_end (end_of since until now) v v.inside_since

abbrev pub window_of : ℕ → ℕ → ℕ → ℕ
window_of since until now = end_of since until now - since

pub seconds_inside : ℕ → ℕ → ℕ → Option Bool → List Crossing → ℕ
seconds_inside since until now prior events = seconds_of (intervals_of since until now prior events)

-- `max(0.0, window - vehicle.seconds_inside)`
pub seconds_outside : ℕ → ℕ → ℕ → Option Bool → List Crossing → ℕ
seconds_outside since until now prior events =
    window_of since until now - seconds_inside since until now prior events

-- The loop of `_union_seconds`, with `current` and `total`.
pub union_loop : Interval → ℕ → List Interval → ℕ
union_loop (a, b) total [] = total + (b - a)
union_loop (a, b) total ((start, end) ∷ intervals) =
    let next = if ltb b start then (start, end) else if ltb b end then (a, end) else (a, b) in
    union_loop next (if ltb b start then total + (b - a) else total) intervals

pub union_sorted : List Interval → ℕ
union_sorted [] = 0
union_sorted (i ∷ intervals) = union_loop i 0 intervals

pub union_seconds : List Interval → ℕ
union_seconds intervals = union_sorted (sorted interval_before intervals)
