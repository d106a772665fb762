-- ===== src/Api/GeofenceReport/Window.antt =====
-- Inside and outside add up to the window.
use gps_tracking.Prelude.{
  ℕ, ◌+◌, ◌-◌, ◌≤◌, ◌≡◌, Bool, true, false, ◌&&◌, Option, none, some, List, [], ◌∷◌, ◌++◌, ltb, leb,
  min, arith, All, Bool-cases, inl, inr,
}
use gps_tracking.Prelude.Sorting.{insert, sorted}
use gps_tracking.Api.GeofenceReport.{
  Interval, Kind, enter, exit, Crossing, crossing_before, end_of, in_window, Visits,
  inside_at_start, opened, closed, on_crossing, cross, cross_all, at_end, no_visits, seconds_of,
  intervals_of, window_of, seconds_inside, seconds_outside,
}

seconds_of-append :
    (xs : List Interval) (a b : ℕ) → seconds_of (xs ++ ((a, b) ∷ [])) ≡ seconds_of xs + (b - a)
unfolding seconds_of
seconds_of-append [] a b = omega arith
seconds_of-append ((c, d) ∷ xs) a b = omega (arith, seconds_of-append xs a b)

-- Up to time `p` no more seconds are counted than have passed since the window's start.
abbrev Counted : ℕ → ℕ → ℕ → Option ℕ → Type 0
Counted since p total none = total + since ≤ p
Counted since p total (some a) = (total + since ≤ a) × (a ≤ p)

-- Crossings at or after `p`, in order of time.
abbrev InOrder : ℕ → List Crossing → Type 0
InOrder p [] = Unit
InOrder p (c ∷ cs) = (p ≤ c.occurred_at) × InOrder c.occurred_at cs

InOrder-weaken : (p q : ℕ) (cs : List Crossing) → q ≤ p → InOrder p cs → InOrder q cs
InOrder-weaken p q [] le h = tt
InOrder-weaken p q (c ∷ cs) le h = (omega (arith, h.0), h.1)

insert-InOrder :
    (p : ℕ) (c : Crossing) (cs : List Crossing)
    → p ≤ c.occurred_at
    → InOrder p cs
    → InOrder p (insert crossing_before c cs)
unfolding insert
insert-InOrder p c [] le h = (le, tt)
insert-InOrder p c (d ∷ cs) le h = elim (Bool-cases (crossing_before d c)) [
  | inl e ↦ rw e (h.0, insert-InOrder d.occurred_at c cs (ground (arith, e)) h.1)
  | inr e ↦ rw e (le, (ground (arith, e), h.1))
]

sorted-InOrder :
    (p : ℕ) (cs : List Crossing)
    → All (λ (c : Crossing). p ≤ c.occurred_at) cs
    → InOrder p (sorted crossing_before cs)
unfolding sorted
sorted-InOrder p [] h = tt
sorted-InOrder p (c ∷ cs) h =
    insert-InOrder p c (sorted crossing_before cs) h.0 (sorted-InOrder p cs h.1)

in_window-All :
    (since until : ℕ) (cs : List Crossing)
    → All (λ (c : Crossing). since ≤ c.occurred_at) (in_window since until cs)
unfolding in_window
in_window-All since until [] = tt
in_window-All since until (c ∷ cs) =
    elim (Bool-cases (leb since c.occurred_at && leb c.occurred_at until)) [
      | inl e ↦ rw e (ground (arith, e), in_window-All since until cs)
      | inr e ↦ rw e (in_window-All since until cs)
    ]

opened-Counted :
    (since p q total : ℕ) (o : Option ℕ)
    → p ≤ q
    → Counted since p total o
    → Counted since q total (opened o q)
unfolding opened
opened-Counted since p q total none le h = (omega (arith, h), omega arith)
opened-Counted since p q total (some a) le h = (h.0, omega (arith, h.1))

closed-Counted :
    (since p q : ℕ) (xs : List Interval) (o : Option ℕ)
    → p ≤ q
    → Counted since p (seconds_of xs) o
    → seconds_of (closed xs o q) + since ≤ q
unfolding closed
closed-Counted since p q xs none le h = omega (arith, h)
closed-Counted since p q xs (some a) le h = omega (arith, h.0, h.1, seconds_of-append xs a q)

on_crossing-Counted :
    (since p q : ℕ) (v : Visits) (k : Kind)
    → p ≤ q
    → Counted since p (seconds_of v.intervals) v.inside_since
    → Counted since q (seconds_of (on_crossing v k q).intervals) (on_crossing v k q).inside_since
unfolding on_crossing
on_crossing-Counted since p q v enter le h =
    opened-Counted since p q (seconds_of v.intervals) v.inside_since le h
on_crossing-Counted since p q v exit le h = closed-Counted since p q v.intervals v.inside_since le h

-- The loop's invariant, at the end of the crossings.
record AtEnd (since end : ℕ) (v : Visits) : Type 0 where
  p : ℕ
  in_time : p ≤ end
  counted : Counted since p (seconds_of v.intervals) v.inside_since

cross_all-AtEnd :
    (since end p : ℕ) (v : Visits) (cs : List Crossing)
    → InOrder p cs
    → Counted since (min p end) (seconds_of v.intervals) v.inside_since
    → AtEnd since end (cross_all end v cs)
unfolding cross_all cross
cross_all-AtEnd since end p v [] sort h = record {
  p = min p end;
  in_time = omega arith;
  counted = h;
}
cross_all-AtEnd since end p v (c ∷ cs) sort h =
    cross_all-AtEnd since end c.occurred_at (cross end v c) cs sort.1 (
      on_crossing-Counted since (min p end) (min c.occurred_at end) v c.kind (omega (arith, sort.0))
        h)

at_end-within :
    (since end p : ℕ) (v : Visits) (o : Option ℕ)
    → p ≤ end
    → Counted since p (seconds_of v.intervals) o
    → seconds_of (at_end end v o) + since ≤ end
unfolding at_end
at_end-within since end p v none le h = omega (arith, h)
at_end-within since end p v (some a) le h = elim (Bool-cases (ltb a end)) [
  | inl e ↦ rw e (ground (arith, e, h.0, h.1, seconds_of-append v.intervals a end))
  | inr e ↦ rw e (omega (arith, h.0, h.1))
]

start-Counted :
    (since end : ℕ) (known : Bool)
    → since ≤ end
    → Counted since (min since end) (seconds_of []) (no_visits since known).inside_since
unfolding seconds_of
start-Counted since end true le = (omega arith, omega arith)
start-Counted since end false le = omega arith

pub seconds_inside_le :
    (since until now : ℕ) (prior : Option Bool) (events : List Crossing)
    → seconds_inside since until now prior events ≤ window_of since until now
unfolding seconds_inside intervals_of
seconds_inside_le since until now prior events =
    let end = end_of since until now in
    let cs = sorted crossing_before (in_window since until events) in
    let known = inside_at_start prior cs in
    let done =
      cross_all-AtEnd since end since (no_visits since known) cs
        (sorted-InOrder since (in_window since until events) (in_window-All since until events))
        (start-Counted since end known (omega arith)) in
    let v = cross_all end (no_visits since known) cs in
    omega (arith, at_end-within since end done.p v v.inside_since done.in_time done.counted)

-- For one vehicle and one geofence the seconds inside and outside add up to the window, whatever the
-- crossings, in whatever order they come, and whether or not the window has ended.
pub seconds_inside_outside :
    (since until now : ℕ) (prior : Option Bool) (events : List Crossing)
    → seconds_inside since until now prior events + seconds_outside since until now prior events
      ≡ window_of since until now
unfolding seconds_outside
seconds_inside_outside since until now prior events =
    omega (arith, seconds_inside_le since until now prior events)
