-- ===== src/Api/Live.antt =====
-- `ConnectionManager` of api/live.py. A socket is known by its identity, a number.
pub mod Fanout
use gps_tracking.Prelude.{
  ℕ, Bool, true, false, ◌||◌, Option, none, some, List, [], ◌∷◌, ◌++◌, ◌==◌, if◌then◌else◌,
}
use gps_tracking.Protocol.Codec.Cell.{Text}
use gps_tracking.Gateway.Text.{text_eq}
use gps_tracking.Api.Account.{AuthenticatedUser, is_admin}

-- `_scope` of api/routers/live.py
pub scope : AuthenticatedUser → Option (List Text)
scope u = if is_admin u then none else some u.devices

-- `_connections`: a socket, and the devices it may see; `none` is an administrator's, who sees all.
abbrev pub Connections : Type 0
Connections = List (ℕ × Option (List Text))

pub register : Connections → ℕ → Option (List Text) → Connections
register cs socket devices = cs ++ ((socket, devices) ∷ [])

pub unregister : Connections → ℕ → Connections
unregister [] socket = []
unregister ((s, devices) ∷ cs) socket =
    let rest = unregister cs socket in if s == socket then rest else (s, devices) ∷ rest

pub is_among : Text → List Text → Bool
is_among id [] = false
is_among id (d ∷ devices) = text_eq id d || is_among id devices

-- `devices is None or device_id in devices`
pub may_see : Option (List Text) → Text → Bool
may_see none id = true
may_see (some devices) id = is_among id devices

pub targets : Connections → Text → List ℕ
targets [] id = []
targets ((socket, devices) ∷ cs) id =
    let rest = targets cs id in if may_see devices id then socket ∷ rest else rest

-- The sockets that a fix of a device is sent to; a fix with no device goes nowhere.
pub broadcast : Connections → Option Text → List ℕ
broadcast cs none = []
broadcast cs (some []) = []
broadcast cs (some (c ∷ id)) = targets cs (c ∷ id)
