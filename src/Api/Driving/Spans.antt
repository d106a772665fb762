-- ===== src/Api/Driving/Spans.antt =====
-- The stretches with the ignition on lie in the window, in order and apart.
use gps_tracking.Prelude.{
  ℕ, ◌≤◌, ◌<◌, Bool, true, false, Option, none, some, List, [], ◌∷◌, ◌++◌, ltb, max, arith,
  Bool-cases, inl, inr,
}
use gps_tracking.Api.Driving.{Span, Lit, add_span, flip, flips_until, flip_all, last_span, spans_of}

-- Spans of some length, each at or after the end of the one before, all between two times.
abbrev pub Between : ℕ → ℕ → List Span → Type 0
Between lo hi [] = lo ≤ hi
Between lo hi ((a, b) ∷ spans) = (lo ≤ a) × (a < b) × Between b hi spans

Between-append :
    (lo mid a hi : ℕ) (spans : List Span)
    → Between lo mid spans
    → mid ≤ a
    → a < hi
    → Between lo hi (spans ++ ((a, hi) ∷ []))
Between-append lo mid a hi [] h le lt = (omega (arith, h), lt, omega arith)
Between-append lo mid a hi ((c, d) ∷ spans) h le lt =
    (h.0, h.1, Between-append d mid a hi spans h.2 le lt)

Between-weaken :
    (lo mid hi : ℕ) (spans : List Span) → Between lo mid spans → mid ≤ hi → Between lo hi spans
Between-weaken lo mid hi [] h le = omega (arith, h)
Between-weaken lo mid hi ((c, d) ∷ spans) h le = (h.0, h.1, Between-weaken d mid hi spans h.2 le)

add_span-Between :
    (lo mid on at_time hi : ℕ) (spans : List Span)
    → Between lo mid spans
    → mid ≤ on
    → at_time ≤ hi
    → mid ≤ hi
    → Between lo hi (add_span spans on at_time)
add_span-Between lo mid on at_time hi spans h le top top' = elim (Bool-cases (ltb on at_time)) [
  | inl e ↦ rw e (
      Between-weaken lo at_time hi (spans ++ ((on, at_time) ∷ []))
        (Between-append lo mid on at_time spans h le (ground (arith, e))) top)
  | inr e ↦ rw e (Between-weaken lo mid hi spans h top')
]

-- The flips so far, up to time `p`: the stretch that is open began after the last one ended.
abbrev Held : ℕ → ℕ → List Span → Option ℕ → Type 0
Held since p spans none = Between since (max p since) spans
Held since p spans (some on) = (mid : ℕ) × Between since mid spans × (mid ≤ on) × (on ≤ max p since)

flip-Held :
    (since p at_time : ℕ) (state : Bool) (spans : List Span) (o : Option ℕ)
    → p ≤ at_time
    → Held since p spans o
    → Held since at_time
        (flip since at_time state spans o).spans
        (flip since at_time state spans o).on_since
unfolding flip
flip-Held since p at_time true spans none le h = (max p since, h, omega arith, omega arith)
flip-Held since p at_time true spans (some on) le (mid, b, lo, hi) = (mid, b, lo, omega arith)
flip-Held since p at_time false spans none le h =
    Between-weaken since (max p since) (max at_time since) spans h (omega arith)
flip-Held since p at_time false spans (some on) le (mid, b, lo, hi) =
    add_span-Between since mid on at_time (max at_time since) spans b lo (omega arith) (omega arith)

-- Flips in order of time.
abbrev pub InOrder : ℕ → List (ℕ × Bool) → Type 0
InOrder p [] = Unit
InOrder p ((at_time, state) ∷ flips) = (p ≤ at_time) × InOrder at_time flips

last_span-Between :
    (since until p : ℕ) (spans : List Span) (o : Option ℕ)
    → since ≤ until
    → p ≤ until
    → Held since p spans o
    → Between since until (last_span until spans o)
unfolding last_span
last_span-Between since until p spans none le in_time h =
    Between-weaken since (max p since) until spans h (omega arith)
last_span-Between since until p spans (some on) le in_time (mid, b, lo, hi) =
    add_span-Between since mid on until until spans b lo (omega arith) (omega arith)

flip_all-Between :
    (since until p : ℕ) (l : Lit) (flips : List (ℕ × Bool))
    → since ≤ until
    → p ≤ until
    → InOrder p flips
    → Held since p l.spans l.on_since
    → Between since until (
        last_span until
          (flip_all since l (flips_until until flips)).spans
          (flip_all since l (flips_until until flips)).on_since)
unfolding flip_all flips_until
flip_all-Between since until p l [] le in_time sort h =
    last_span-Between since until p l.spans l.on_since le in_time h
flip_all-Between since until p l ((at_time, state) ∷ flips) le in_time sort h =
    elim (Bool-cases (ltb until at_time)) [
      | inl e ↦ rw e (last_span-Between since until p l.spans l.on_since le in_time h)
      | inr e ↦ rw e (
          flip_all-Between since until at_time (flip since at_time state l.spans l.on_since) flips
            le (ground (arith, e)) sort.1
            (flip-Held since p at_time state l.spans l.on_since sort.0 h))
    ]

-- For flips in order of time, the stretches reported lie in the window, have some length, and follow
-- one another without an overlap.
pub spans_of-Between :
    (since until : ℕ) (flips : List (ℕ × Bool))
    → since ≤ until
    → InOrder 0 flips
    → Between since until (spans_of since until flips)
unfolding spans_of
spans_of-Between since until flips le sort =
    flip_all-Between since until 0 (record { spans = []; on_since = none }) flips le (omega arith)
      sort (omega arith)
