-- ===== src/Gateway/Admission.antt =====
-- gps_gateway/admission.py: which trackers may log in. Times are whole ticks of the monotonic clock.
pub mod Laws
use gps_tracking.Prelude.{ℕ, ◌+◌, Bool, true, false, List, [], ◌∷◌, ltb, if◌then◌else◌}
use gps_tracking.Protocol.Codec.Cell.{Text}
use gps_tracking.Gateway.Text.{text_eq}

pub data Mode : Type 0 where
  enforce log : Mode

-- What the database's `gateway_admit` answers, or that it could not be asked.
pub data Answer : Type 0 where
  allowed unknown failed : Answer

-- `Admission()` admits everyone; `PostgresAdmission` keeps `_allowed_until`.
pub data Admission : Type 0 where
  off : Admission
  postgres : Mode → ℕ → List (Text × ℕ) → Admission

-- `self._allowed_until.get(device_id, 0.0)` and `self._allowed_until[device_id] = until`
unfoldable pub until_of : List (Text × ℕ) → Text → ℕ
until_of [] device_id = 0
until_of ((id, time) ∷ m) device_id = if text_eq id device_id then time else until_of m device_id

pub remember : List (Text × ℕ) → Text → ℕ → List (Text × ℕ)
remember [] device_id time = (device_id, time) ∷ []
remember ((id, old) ∷ m) device_id time =
    if text_eq id device_id then (id, time) ∷ m else (id, old) ∷ remember m device_id time

unfoldable pub admit_answer : Mode → ℕ → List (Text × ℕ) → ℕ → Text → Answer → Bool × Admission
admit_answer mode cache_s until now device_id failed = (true, postgres mode cache_s until)
admit_answer mode cache_s until now device_id allowed =
    (true, postgres mode cache_s (remember until device_id (now + cache_s)))
admit_answer log cache_s until now device_id unknown = (true, postgres log cache_s until)
admit_answer enforce cache_s until now device_id unknown = (false, postgres enforce cache_s until)

-- `ask` is the database at this moment.
unfoldable pub admit : Admission → ℕ → (Text → Answer) → Text → Bool × Admission
admit off now ask device_id = (true, off)
admit (postgres mode cache_s until) now ask device_id =
    if ltb now (until_of until device_id)
    then (true, postgres mode cache_s until)
    else admit_answer mode cache_s until now device_id (ask device_id)
