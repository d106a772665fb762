-- ===== src/Api/Geofences/Report/Newest.antt =====
-- Which crossings the reports of api/geofences_repository.py give.
use gps_tracking.Prelude.{
  ℕ, suc, ◌+◌, ◌-◌, ◌<◌, ◌≤◌, ◌≡◌, refl, sym, ap, ◌∙◌, Bool, true, false, not, ◌&&◌, Option, none,
  some, List, [], ◌∷◌, ◌++◌, length, ltb, leb, take, if◌then◌else◌, arith, Bool-cases, Option-cases,
  inl, inr, take-length,
}
use gps_tracking.Prelude.Sorting.{sorted, length-sorted}
use gps_tracking.Gateway.Text.{text_eq_iff}
use gps_tracking.Api.Geofences.{GeofenceEventOut, Geofences}
use gps_tracking.Api.Geofences.Report.{
  Query, row_of, newer, collect, list_events, same_pair, is_in, add_newest, newest_of, any_query,
  last_crossings_before,
}

-- The rows of all the events, newest first.
abbrev pub rows_of : {A B : Type 0} → (A → Option B) → List A → List B
rows_of f [] = []
rows_of f (e ∷ events) = elim (f e) [ none ↦ rows_of f events | some row ↦ row ∷ rows_of f events ]

module _ {A B : Type 0} (f : A → Option B) where
  collect-take :
      (limit count : ℕ) (events : List A)
      → count < limit
      → collect f limit count events ≡ take (limit - count) (rows_of f events)
  unfolding collect
  collect-take limit count [] h = sym (take-length (limit - count) [] (omega arith))
  collect-take limit count (e ∷ events) h = elim (Option-cases (f e)) [
    | inl n ↦ rw (collect, rows_of, n) (collect-take limit count events h)
    | inr (row, n) ↦ elim (Bool-cases (leb limit (count + 1))) [
      | inl l ↦
          let one : 1 ≡ limit - count = ground (arith, l, h) in
          rw (collect, rows_of, n, l) (ap (λ k. take k (row ∷ rows_of f events)) one)
      | inr l ↦
          let more : suc (limit - (count + 1)) ≡ limit - count = ground (arith, l) in
          rw (collect, rows_of, n, l)
            (ap (◌∷◌ row) (collect-take limit (count + 1) events (ground (arith, l)))
              ∙ ap (λ k. take k (row ∷ rows_of f events)) more)
    ]
  ]

  length-rows_of : (events : List A) → length (rows_of f events) ≤ length events
  length-rows_of [] = omega arith
  length-rows_of (e ∷ events) = elim (Option-cases (f e)) [
    | inl n ↦ rw (length, rows_of, n) (omega (arith, length-rows_of events))
    | inr (row, n) ↦ rw (length, rows_of, n) (omega (arith, length-rows_of events))
  ]

abbrev pub first : {A : Type 0} → (A → Bool) → List A → Option A
first test [] = none
first test (a ∷ items) = let rest = first test items in if test a then some a else rest

-- The first of the dict's entries for a pair, or of the events still to come before the time.
abbrev pub first_of :
    ℕ → GeofenceEventOut → List GeofenceEventOut → List GeofenceEventOut → Option GeofenceEventOut
first_of before p newest events = elim (first (λ n. same_pair n p) newest) [
  | some n ↦ some n
  | none ↦ first (λ n. same_pair n p && ltb n.occurred_at before) events
]

first-append :
    (p e : GeofenceEventOut) (newest : List GeofenceEventOut)
    → first (λ n. same_pair n p) (newest ++ (e ∷ []))
      ≡ (elim (first (λ n. same_pair n p) newest) as (λ o. Option GeofenceEventOut) [
        | some n ↦ some n
        | none ↦ if same_pair e p then some e else none
      ])
first-append p e [] = ground arith
first-append p e (n ∷ newest) = elim (Bool-cases (same_pair n p)) [
  | inl h ↦ rw h refl
  | inr h ↦ rw h (first-append p e newest)
]

-- A pair that is in has an entry.
is_in-first :
    (p e : GeofenceEventOut) (newest : List GeofenceEventOut)
    → same_pair e p ≡ true
    → first (λ n. same_pair n p) newest ≡ none
    → is_in e newest ≡ false
is_in-first p e [] s h = refl
is_in-first p e (n ∷ newest) s h = ground (
  arith,
  s,
  h,
  is_in-first p e newest s,
  text_eq_iff n.device_id p.device_id,
  text_eq_iff e.device_id p.device_id,
  text_eq_iff n.device_id e.device_id,
)

add_newest-first :
    (before : ℕ) (p e : GeofenceEventOut) (newest events : List GeofenceEventOut)
    → first_of before p (add_newest before newest e) events ≡ first_of before p newest (e ∷ events)
add_newest-first before p e newest events =
    elim (Bool-cases (ltb e.occurred_at before && not (is_in e newest))) [
      | inl g ↦ elim (Option-cases (first (λ n. same_pair n p) newest)) [
        | inr (n, h) ↦ rw (add_newest, g, first_of, first-append p e newest, h) refl
        | inl h ↦ elim (Bool-cases (same_pair e p)) [
          | inl s ↦
              let b : ltb e.occurred_at before ≡ true = ground (arith, g) in
              rw (add_newest, g, first_of, first-append p e newest, h, s, b) refl
          | inr s ↦ rw (add_newest, g, first_of, first-append p e newest, h, s) refl
        ]
      ]
      | inr g ↦ elim (Option-cases (first (λ n. same_pair n p) newest)) [
        | inr (n, h) ↦ rw (add_newest, g, first_of, h) refl
        | inl h ↦ elim (Bool-cases (same_pair e p)) [
          | inl s ↦
              let b : ltb e.occurred_at before ≡ false =
                ground (arith, g, is_in-first p e newest s h) in
              rw (add_newest, g, first_of, h, s, b) refl
          | inr s ↦ rw (add_newest, g, first_of, h, s) refl
        ]
      ]
    ]

newest_of-first :
    (before : ℕ) (p : GeofenceEventOut) (newest events : List GeofenceEventOut)
    → first (λ n. same_pair n p) (newest_of before newest events) ≡ first_of before p newest events
unfolding newest_of
newest_of-first before p newest [] = elim (Option-cases (first (λ n. same_pair n p) newest)) [
  | inl h ↦ rw (first_of, h) refl
  | inr (n, h) ↦ rw (first_of, h) refl
]
newest_of-first before p newest (e ∷ events) =
    newest_of-first before p (add_newest before newest e) events
    ∙ add_newest-first before p e newest events

-- Every row of the report, newest first.
abbrev pub all_rows : Geofences → Query → List GeofenceEventOut
all_rows r q = rows_of (row_of r q) (sorted newer r.events)

pub list_events-take :
    (r : Geofences) (q : Query) (limit : ℕ)
    → 1 ≤ limit
    → list_events r q limit ≡ take limit (all_rows r q)
unfolding list_events
list_events-take r q limit h =
    let whole : limit - 0 ≡ limit = omega arith in
    collect-take (row_of r q) limit 0 (sorted newer r.events) h
    ∙ ap (λ k. take k (all_rows r q)) whole

list_events-all : (r : Geofences) (q : Query) → list_events r q (length r.events + 1) ≡ all_rows r q
list_events-all r q =
    list_events-take r q (length r.events + 1) (omega arith)
    ∙ take-length (length r.events + 1) (all_rows r q) (
        omega (
          arith,
          length-rows_of (row_of r q) (sorted newer r.events),
          length-sorted newer r.events,
        ))

-- Of the rows before the time, the first of each pair.
pub last_crossings_before-first :
    (r : Geofences) (q : Query) (before : ℕ) (p : GeofenceEventOut)
    → first (λ n. same_pair n p) (last_crossings_before r q.owner_id q.device_scope before)
      ≡ first
          (λ n. same_pair n p && ltb n.occurred_at before)
          (all_rows r (any_query q.owner_id q.device_scope))
unfolding last_crossings_before
last_crossings_before-first r q before p =
    newest_of-first before p []
      (list_events r (any_query q.owner_id q.device_scope) (length r.events + 1))
    ∙ ap (first (λ n. same_pair n p && ltb n.occurred_at before))
        (list_events-all r (any_query q.owner_id q.device_scope))
