-- ===== src/Gateway/Registry.antt =====
-- `SessionRegistry` of gps_gateway/commands.py. A session object is known by its identity, a number.
pub mod Laws
use gps_tracking.Prelude.{ℕ, Bool, Option, none, some, List, [], ◌∷◌, ◌==◌, if◌then◌else◌}
use gps_tracking.Protocol.Codec.Cell.{Text}
use gps_tracking.Gateway.Text.{text_eq}

-- `_sessions`, in insertion order.
abbrev pub Registry : Type 0
Registry = List (Text × ℕ)

unfoldable pub get : Registry → Text → Option ℕ
get [] device_id = none
get ((id, session) ∷ r) device_id = if text_eq id device_id then some session else get r device_id

-- `d[k] = v` keeps the place of a key that is there.
pub add : Registry → Text → ℕ → Registry
add [] device_id session = (device_id, session) ∷ []
add ((id, old) ∷ r) device_id session =
    if text_eq id device_id then (id, session) ∷ r else (id, old) ∷ add r device_id session

pub delete : Registry → Text → Registry
delete [] device_id = []
delete ((id, session) ∷ r) device_id =
    let rest = delete r device_id in if text_eq id device_id then rest else (id, session) ∷ rest

pub holds : Option ℕ → ℕ → Bool
holds none session = Bool.false
holds (some held) session = held == session

-- `if self._sessions.get(device_id) is session: del …`
pub remove : Registry → Text → ℕ → Registry
remove r device_id session = if holds (get r device_id) session then delete r device_id else r

-- The sessions that `notify` and `notify_all` ask to deliver.
pub deliver_to : Option ℕ → List ℕ
deliver_to none = []
deliver_to (some session) = session ∷ []

pub notify : Registry → Text → List ℕ
notify r device_id = deliver_to (get r device_id)

pub notify_all : Registry → List ℕ
notify_all [] = []
notify_all ((id, session) ∷ r) = session ∷ notify_all r
