-- ===== src/Gateway/Batching/Order.antt =====
-- Batches keep the events and their order, and stay within their size.
use gps_tracking.Prelude.{
  ℕ, ◌≤◌, ◌<◌, ◌≡◌, refl, sym, ap, ◌∙◌, List, [], ◌∷◌, ◌++◌, length, ltb, arith, All, All-append,
  Bool-cases, inl, inr, length-append,
}
use mathlib.Core.List.{append-nil, append_assoc, flatten}
use gps_tracking.Gateway.Batching.{
  event, stop_marker, Signal, got, deadline, Run, close, nonempty, emit, run,
}

module _ {A : Type 0} where
  -- The events ahead of the stop marker.
  pub before_stop : List (Signal A) → List A
  before_stop [] = []
  before_stop (deadline ∷ signals) = before_stop signals
  before_stop (got stop_marker ∷ signals) = []
  before_stop (got (event e) ∷ signals) = e ∷ before_stop signals

  abbrev pub content : Run A → List A
  content r = flatten r.flushed ++ r.pending

  content-emit :
      (written : List (List A)) (r : Run A)
      → content (emit written r) ≡ flatten written ++ content r
  unfolding emit flatten
  content-emit [] r = refl
  content-emit (b ∷ written) r =
      append_assoc b (flatten (written ++ r.flushed)) r.pending
      ∙ (ap (◌++◌ b) (content-emit written r) ∙ sym (append_assoc b (flatten written) (content r)))

  flatten-nonempty : (batch : List A) → flatten (nonempty batch) ≡ batch
  unfolding nonempty flatten
  flatten-nonempty [] = refl
  flatten-nonempty (e ∷ batch) = append-nil (e ∷ batch)

  flatten-close :
      (size : ℕ) (batch : List A) → flatten (close size batch).0 ++ (close size batch).1 ≡ batch
  unfolding close flatten
  flatten-close size batch = elim (Bool-cases (ltb (length batch) size)) [
    | inl e ↦ rw e refl
    | inr e ↦ rw e (append-nil (batch ++ []) ∙ append-nil batch)
  ]

  -- The batches written, one after the other, and the batch in hand are the events ahead of the stop
  -- marker in the order they came: none is lost, repeated or moved.
  pub run-before_stop :
      (size : ℕ) (batch : List A) (signals : List (Signal A))
      → content (run size batch signals) ≡ batch ++ before_stop signals
  unfolding run before_stop flatten
  run-before_stop size batch [] = sym (append-nil batch)
  run-before_stop size batch (deadline ∷ signals) =
      content-emit (nonempty batch) (run size [] signals)
      ∙ rw (flatten-nonempty batch, run-before_stop size [] signals) refl
  run-before_stop size batch (got stop_marker ∷ signals) = rw (flatten-nonempty batch) refl
  run-before_stop size batch (got (event e) ∷ signals) =
      let b = batch ++ (e ∷ []) in
      let next = close size b in
      content-emit next.0 (run size next.1 signals)
      ∙ (ap (◌++◌ (flatten next.0)) (run-before_stop size next.1 signals)
          ∙ (sym (append_assoc (flatten next.0) next.1 (before_stop signals))
              ∙ (ap (λ (l : List A). l ++ before_stop signals) (flatten-close size b)
                  ∙ append_assoc batch (e ∷ []) (before_stop signals))))

  abbrev pub Fits : ℕ → List A → Type 0
  Fits size batch = (1 ≤ length batch) × (length batch ≤ size)

  pub record WithinSize (size : ℕ) (r : Run A) : Type 0 where
    pub batches_fit : All (Fits size) r.flushed
    pub room_left : length r.pending < size

  nonempty-Fits :
      (size : ℕ) (batch : List A) → length batch < size → All (Fits size) (nonempty batch)
  unfolding nonempty
  nonempty-Fits size [] h = tt
  nonempty-Fits size (e ∷ batch) h = ((omega arith, omega arith), tt)

  emit-WithinSize :
      (size : ℕ) (written : List (List A)) (r : Run A)
      → All (Fits size) written
      → WithinSize size r
      → WithinSize size (emit written r)
  unfolding emit
  emit-WithinSize size written r hw hr = record {
    batches_fit = All-append (Fits size) written r.flushed hw hr.batches_fit;
    room_left = hr.room_left;
  }

  close-Fits :
      (size : ℕ) (batch : List A)
      → 1 ≤ length batch
      → length batch ≤ size
      → All (Fits size) (close size batch).0 × (length (close size batch).1 < size)
  unfolding close
  close-Fits size batch some_events h = elim (Bool-cases (ltb (length batch) size)) [
    | inl e ↦ rw e (tt, ground (arith, e))
    | inr e ↦ rw e (((some_events, h), tt), omega arith)
  ]

  -- Every batch written holds at least one event and at most `batch_size`, and the one in hand has room.
  pub run-WithinSize :
      (size : ℕ) (batch : List A) (signals : List (Signal A))
      → length batch < size
      → WithinSize size (run size batch signals)
  unfolding run
  run-WithinSize size batch [] h = record { batches_fit = tt; room_left = h }
  run-WithinSize size batch (deadline ∷ signals) h =
      emit-WithinSize size (nonempty batch) (run size [] signals) (nonempty-Fits size batch h)
        (run-WithinSize size [] signals (omega arith))
  run-WithinSize size batch (got stop_marker ∷ signals) h = record {
    batches_fit = nonempty-Fits size batch h;
    room_left = omega arith;
  }
  run-WithinSize size batch (got (event e) ∷ signals) h =
      let b = batch ++ (e ∷ []) in
      let closed =
        close-Fits size b (omega (arith, length-append batch (e ∷ [])))
          (omega (arith, length-append batch (e ∷ []))) in
      emit-WithinSize size (close size b).0 (run size (close size b).1 signals) closed.0
        (run-WithinSize size (close size b).1 signals closed.1)
