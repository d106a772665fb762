-- ===== src/Api/Driving.antt =====
-- `ignition_on_spans` of api/driving.py. Times are whole seconds.
pub mod Spans
use gps_tracking.Prelude.{
  ℕ, Bool, true, false, Option, none, some, List, [], ◌∷◌, ◌++◌, ltb, if◌then◌else◌, max,
}

abbrev pub Span : Type 0
Span = ℕ × ℕ

-- `spans` and `on_since`.
pub record Lit : Type 0 where
  pub spans : List Span
  pub on_since : Option ℕ

abbrev pub add_span : List Span → ℕ → ℕ → List Span
add_span spans on_since at_time =
    if ltb on_since at_time then spans ++ ((on_since, at_time) ∷ []) else spans

-- The body of the loop, after its `break`.
pub flip : ℕ → ℕ → Bool → List Span → Option ℕ → Lit
flip since at_time true spans none = record { spans = spans; on_since = some (max at_time since) }
flip since at_time true spans (some on) = record { spans = spans; on_since = some on }
flip since at_time false spans none = record { spans = spans; on_since = none }
flip since at_time false spans (some on) = record {
  spans = add_span spans on at_time;
  on_since = none;
}

pub flips_until : ℕ → List (ℕ × Bool) → List (ℕ × Bool)
flips_until until [] = []
flips_until until ((at_time, state) ∷ flips) =
    let rest = flips_until until flips in if ltb until at_time then [] else (at_time, state) ∷ rest

pub flip_all : ℕ → Lit → List (ℕ × Bool) → Lit
flip_all since l [] = l
flip_all since l ((at_time, state) ∷ flips) =
    flip_all since (flip since at_time state l.spans l.on_since) flips

pub last_span : ℕ → List Span → Option ℕ → List Span
last_span until spans none = spans
last_span until spans (some on) = add_span spans on until

pub spans_of : ℕ → ℕ → List (ℕ × Bool) → List Span
spans_of since until flips =
    let l = flip_all since (record { spans = []; on_since = none }) (flips_until until flips) in
    last_span until l.spans l.on_since

-- No flips at all is unknown, not off.
pub ignition_on_spans : List (ℕ × Bool) → ℕ → ℕ → Option (List Span)
ignition_on_spans [] since until = none
ignition_on_spans (f ∷ flips) since until = some (spans_of since until (f ∷ flips))
