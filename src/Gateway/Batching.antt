-- ===== src/Gateway/Batching.antt =====
-- `BatchingSink` of gps_gateway/sinks/batching.py, for events of any type.
pub mod Order
use gps_tracking.Prelude.{
  ℕ, suc, ◌+◌, Bool, true, false, not, ◌&&◌, ◌||◌, Option, none, some, List, [], ◌∷◌, ◌++◌, length,
  ltb, if◌then◌else◌,
}

-- `ValueError` of `__init__` is false; `interval_negative` is `flush_interval_s < 0`.
pub valid_settings : ℕ → Bool → ℕ → Bool
valid_settings batch_size interval_negative queue_max =
    if ltb batch_size 1 then false else if interval_negative then false else not (ltb queue_max 1)

-- What the queue holds: events, and the marker `_STOP`.
pub data Item (A : Type 0) : Type 0 where
  event : A → Item A
  stop_marker : Item A

-- What the flusher meets: an item, or the end of its deadline.
pub data Signal (A : Type 0) : Type 0 where
  got : Item A → Signal A
  deadline : Signal A

pub record Batcher (A : Type 0) : Type 0 where
  pub queue : List (Item A)
  pub started : Bool
  pub closing : Bool
  pub batches_flushed : ℕ
  pub events_failed : ℕ

-- The batches written, the one being filled, whether the flusher has ended, and what it left.
pub record Run (A : Type 0) : Type 0 where
  pub flushed : List (List A)
  pub pending : List A
  pub ended : Bool
  pub unread : List (Signal A)

module _ {A : Type 0} where
  -- A `put` on a full queue waits: this is the moment at which there is room. `none` is the `RuntimeError`.
  pub publish : Batcher A → A → Option (Batcher A)
  publish b e =
      if not b.started || b.closing
      then none
      else some (record b { queue = b.queue ++ (event e ∷ []) })

  -- `stop`, as far as the marker.
  pub close_queue : Batcher A → Batcher A
  close_queue b = record b { closing = true; queue = b.queue ++ (stop_marker ∷ []) }

  pub count_events : List (Item A) → ℕ
  count_events [] = 0
  count_events (event e ∷ items) = suc (count_events items)
  count_events (stop_marker ∷ items) = count_events items

  pub drop_leftovers : Batcher A → Batcher A
  drop_leftovers b = record b { queue = []; events_failed = b.events_failed + count_events b.queue }

  -- `zip(events, results)`, where true stands for an error.
  pub count_failed : List A → List Bool → ℕ
  count_failed [] results = 0
  count_failed (e ∷ events) [] = 0
  count_failed (e ∷ events) (true ∷ results) = suc (count_failed events results)
  count_failed (e ∷ events) (false ∷ results) = count_failed events results

  -- `results` is what `publish_many` returned, or that it raised an exception.
  pub flush : Batcher A → List A → Option (List Bool) → Batcher A
  flush b events none = record b {
    events_failed = b.events_failed + length events;
    batches_flushed = b.batches_flushed + 1;
  }
  flush b events (some results) = record b {
    events_failed = b.events_failed + count_failed events results;
    batches_flushed = b.batches_flushed + 1;
  }

  -- `while len(batch) < self._batch_size`: a full batch is written at once.
  pub close : ℕ → List A → List (List A) × List A
  close size batch = if ltb (length batch) size then ([], batch) else (batch ∷ [], [])

  -- With no item yet there is no deadline: `queue.get()` waits.
  pub nonempty : List A → List (List A)
  nonempty [] = []
  nonempty (e ∷ batch) = (e ∷ batch) ∷ []

  pub emit : List (List A) → Run A → Run A
  emit written r = record r { flushed = written ++ r.flushed }

  -- `_run`, with the batch in hand.
  pub run : ℕ → List A → List (Signal A) → Run A
  run size batch [] = record { flushed = []; pending = batch; ended = false; unread = [] }
  run size batch (deadline ∷ signals) = emit (nonempty batch) (run size [] signals)
  run size batch (got stop_marker ∷ signals) = record {
    flushed = nonempty batch;
    pending = [];
    ended = true;
    unread = signals;
  }
  run size batch (got (event e) ∷ signals) =
      let next = close size (batch ++ (e ∷ [])) in emit next.0 (run size next.1 signals)
