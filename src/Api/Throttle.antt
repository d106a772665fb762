-- ===== src/Api/Throttle.antt =====
-- `LoginThrottle` of api/throttle.py. Times are whole seconds of a clock that does not run back.
pub mod Window
use gps_tracking.Prelude.{
  ℕ, ◌+◌, ◌-◌, Bool, true, false, not, ◌&&◌, ◌||◌, Option, none, some, List, [], ◌∷◌, ◌++◌, length,
  ltb, leb, if◌then◌else◌, max,
}
use gps_tracking.Protocol.Codec.Cell.{Text}
use gps_tracking.Gateway.Text.{text_eq}

-- `(user, address)` and `(user,)`.
pub data Key : Type 0 where
  source : Text → Text → Key
  username : Text → Key

unfoldable pub key_eq : Key → Key → Bool
key_eq (source u a) (source v b) = text_eq u v && text_eq a b
key_eq (source u a) (username v) = false
key_eq (username u) (source v b) = false
key_eq (username u) (username v) = text_eq u v

-- `_failures`: the times of the failures, oldest first.
abbrev pub Failures : Type 0
Failures = List (Key × List ℕ)

pub record LoginThrottle : Type 0 where
  pub per_source : ℕ
  pub per_username : ℕ
  pub window : ℕ
  pub failures : Failures

-- `get(key)`, where a missing key and an empty deque are told apart by no caller.
unfoldable pub times_of : Failures → Key → List ℕ
times_of [] key = []
times_of ((k, times) ∷ m) key = if key_eq k key then times else times_of m key

pub set_times : Failures → Key → List ℕ → Failures
set_times [] key new = []
set_times ((k, times) ∷ m) key new =
    if key_eq k key then (k, new) ∷ m else (k, times) ∷ set_times m key new

-- `setdefault(key, deque()).append(now)`
pub add_time : Failures → Key → ℕ → Failures
add_time [] key now = (key, now ∷ []) ∷ []
add_time ((k, times) ∷ m) key now =
    if key_eq k key then (k, times ++ (now ∷ [])) ∷ m else (k, times) ∷ add_time m key now

pub pop : Failures → Key → Failures
pop [] key = []
pop ((k, times) ∷ m) key = let rest = pop m key in if key_eq k key then rest else (k, times) ∷ rest

-- `while times and now - times[0] >= self.window: times.popleft()`
pub drop_old : ℕ → ℕ → List ℕ → List ℕ
drop_old window now [] = []
drop_old window now (t ∷ times) =
    let rest = drop_old window now times in if leb window (now - t) then rest else t ∷ times

-- What `_wait` returns for the times left; with none left the limit of 0 would be an `IndexError`.
pub seconds_left : ℕ → ℕ → ℕ → List ℕ → ℕ
seconds_left window limit now [] = 0
seconds_left window limit now (t ∷ times) =
    if ltb (length (t ∷ times)) limit then 0 else max 1 (window - (now - t) + 1)

pub wait_times : ℕ → ℕ → ℕ → List ℕ → ℕ
wait_times window limit now times = seconds_left window limit now (drop_old window now times)

-- `_wait`, with the times it drops.
pub wait : LoginThrottle → ℕ → Key → ℕ → ℕ × LoginThrottle
wait t now key limit =
    let times = times_of t.failures key in
    (
      wait_times t.window limit now times,
      record t { failures = set_times t.failures key (drop_old t.window now times) },
    )

pub sweep : ℕ → ℕ → Failures → Failures
sweep window now [] = []
sweep window now ((k, times) ∷ m) =
    let rest = sweep window now m in if is_stale times then rest else (k, times) ∷ rest
  where
    is_stale : List ℕ → Bool
    is_stale [] = true
    is_stale (t ∷ []) = leb window (now - t)
    is_stale (t ∷ u ∷ times) = is_stale (u ∷ times)

-- `normal` is `strip().lower()`, of Python's library.
module _ (normal : Text → Text) where
  pub retry_after : LoginThrottle → ℕ → Text → Text → ℕ × LoginThrottle
  retry_after t now name address =
      let user = normal name in
      let (first, t1) = wait t now (source user address) t.per_source in
      let (second, t2) = wait t1 now (username user) t.per_username in (max first second, t2)

  pub failed : LoginThrottle → ℕ → Text → Text → LoginThrottle
  failed t now name address =
      let user = normal name in
      let m = add_time (add_time t.failures (source user address) now) (username user) now in
      record t { failures = if ltb 10000 (length m) then sweep t.window now m else m }

  pub succeeded : LoginThrottle → Text → Text → LoginThrottle
  succeeded t name address = record t { failures = pop t.failures (source (normal name) address) }
