-- ===== src/Lib.antt =====
-- GPS tracking platform: the GT06 gateway, which speaks a tracker's protocol over TCP, and the part of the
-- API that works on what the gateway stored.
--
-- How the program fits together. A tracker opens a connection; `DeviceSession.handle` of
-- gps_gateway/server.py feeds each read to `FrameDecoder` (gps_gateway/protocol/framing.py), which cuts the
-- stream into frames checked by `crc16_itu` (gps_gateway/protocol/crc.py). `_process_frames` decodes the
-- frames of one read (gps_gateway/protocol/codec.py), asks `Admission` (gps_gateway/admission.py) at a
-- login, keeps `SessionRegistry` (gps_gateway/commands.py), publishes, and then writes acknowledgements.
-- A reply to a command completes its row in the command queue.
-- A request to the API comes to a router of api/routers, which resolves the caller's token (api/users_repository.py)
-- and asks a repository; each repository has an in-memory backend and one in SQL, which should agree. The shop's
-- router also claims the trackers of a shipped order with the repository of the accounts, as a signup does.
-- Commands that the API queues (api/commands_repository.py) are the ones that the gateway delivers, and its
-- allowlist (api/trackers_repository.py) is the one that the gateway asks.
--
-- The files:
--   Prelude: names shared by all, lists measured by native numbers, bit operations, integers.
--   Protocol/Crc: `crc16_itu`; Crc/Reference holds the bit-serial checksum that it is compared with.
--   Protocol/Framing: `FrameDecoder`, a record that every operation returns anew; `find` to `scan` are the
--   pieces of `_resync` and `_next_frame`. Drain relates a buffer to the frames that it holds, Wire is the
--   layout of a frame, Chunks is about the cuts between reads.
--   Protocol/Codec: a module per group of decoders or encoders; an exception of an encoder is an `err`. Reply/Wide
--   holds the UTF-16 encoding that replies are read back from.
--   Gateway/Registry, Gateway/Admission, Gateway/Commands: the classes of those names. The database's
--   answers are arguments.
--   Gateway/Session: `_process_frames` as a function from the objects it changes and the frames to
--   the new objects and the list of calls it makes on the sink, the command queue and the writer.
--   Gateway/Session/Connection: `handle`, a step for each read.
--   Gateway/Session/Deliver: `deliver_commands` after the claim.
--   Gateway/Batching: `BatchingSink` of gps_gateway/sinks/batching.py; the flusher reads a list of signals.
--   Api/Throttle, Api/Live, Api/Driving, Api/GeofenceReport: the parts of api/throttle.py, api/live.py,
--   api/driving.py and api/geofence_report.py that decide without a database, and `_scope` of
--   api/routers/live.py.
--   Api/Http, Api/Account: what a handler answers, and the signed-in account of api/users_repository.py.
--   Api/Users, Api/Users/Accounts, Api/Users/Sessions: `InMemoryUserRepository` of api/users_repository.py;
--   Api/Users/Router: api/routers/users.py.
--   Api/Shop: `InMemoryShopRepository` of api/shop_repository.py; Api/Shop/Router, Api/Shop/Router/Update:
--   api/routers/shop.py.
--   Api/Alerts, Api/Alerts/Sql, Api/Alerts/Router: api/alerts_repository.py, both backends, and
--   api/routers/alerts.py.
--   Api/Commands, Api/Commands/Sql: api/commands_repository.py, both backends. Api/Trackers: the in-memory
--   backend of api/trackers_repository.py.
--   Api/Geofences, Api/Geofences/Report: `InMemoryGeofenceRepository` of api/geofences_repository.py;
--   Report/Asked says what a report is asked for, apart from how it is computed.
--
-- Bytes and code points are numbers; every operation that wraps or refuses at a width writes it out.
-- `feed` runs on fuel, one more than the bytes in hand, and every round of its loop takes at least a byte.
-- Coordinates are whole micro-degrees, the sixth decimal that the source rounds a float to; the model rounds
-- the exact quotient. Times are whole seconds, or numbers of any unit where the source only compares and
-- subtracts them; a request reads the clock once. Prices are hundredths.
-- What a random source or a hash gives (salts, tokens, bcrypt, SHA-256), Python's `lower` and `strip`, and
-- whether a device has reported a position are arguments. A repository's SQL is read as functions on lists of
-- rows, a transaction as one step. Requests to the API are handled one after the other. A field of an update
-- is sent with a value or not sent: an explicit null for an order's status or devices is left out.
--
-- Not modelled: log lines, the event loop and timers, HTTP, configuration, the schema's triggers and the SQL
-- of the backends not named above, positions in the API, trip reports, push messages. What these give is an
-- argument.
pub mod Prelude
pub mod Protocol
pub mod Gateway
pub mod Api
