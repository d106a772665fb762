-- ===== src/Gateway/Session/Deliver/Settled.antt =====
-- What becomes of the claimed commands.
use gps_tracking.Prelude.{
  ℕ, ◌+◌, ◌/◌, ◌≤◌, ◌<◌, ◌≡◌, refl, Bool, true, false, ◌||◌, none, List, [], ◌∷◌, ◌++◌, length,
  ◌==◌, arith, All, Bool-cases, inl, inr, ==_refl,
}
use gps_tracking.Prelude.Bits.{bit_and_step}
use gps_tracking.Protocol.Bytes.{Bytes}
use gps_tracking.Protocol.Constants.{proto_command}
use gps_tracking.Protocol.Result.{ok}
use gps_tracking.Protocol.Framing.Wire.{short_wire}
use gps_tracking.Protocol.Codec.Build.RoundTrip.{built_frame}
use gps_tracking.Protocol.Codec.Build.Command.{IsAscii, command_content, build_command_total}
use gps_tracking.Protocol.Codec.Cell.RoundTrip.{bit_and_low_15}
use gps_tracking.Gateway.Session.{Session, Effect, complete, has_id}
use gps_tracking.Gateway.Session.Deliver.{
  PendingCommand, Delivery, is_refused, await_id, bump, send, deliver_one, join, go_on,
  deliver_commands,
}

-- The command's outcome is among the effects.
abbrev pub is_completed : ℕ → List Effect → Bool
is_completed id [] = false
is_completed id (complete done device worked reply error ∷ effects) =
    done == id || is_completed id effects
is_completed id (_ ∷ effects) = is_completed id effects

abbrev pub settled : Delivery → ℕ → Bool
settled d id = has_id id d.session.awaiting || is_completed id d.effects

abbrev pub IsSettled : Delivery → PendingCommand → Type 0
IsSettled d c = settled d c.id ≡ true

abbrev pub IsSendable : PendingCommand → Type 0
IsSendable c = (c.id < 4294967296) × All IsAscii c.command × (length c.command ≤ 243)

is_completed-append :
    (id : ℕ) (xs ys : List Effect)
    → is_completed id (xs ++ ys) ≡ (is_completed id xs || is_completed id ys)
is_completed-append id [] ys = refl
is_completed-append id (complete done device worked reply error ∷ xs) ys =
    ground (arith, is_completed-append id xs ys)
is_completed-append id (_ ∷ xs) ys = is_completed-append id xs ys

bump_lt : (s : Session) → (bump s).out_serial < 65536
bump_lt s =
    omega (arith, bit_and_step (s.out_serial + 1) 0xffff, bit_and_low_15 ((s.out_serial + 1) / 2))

has_id-await_id : (id : ℕ) (ids : List ℕ) → has_id id (await_id id ids) ≡ true
unfolding has_id
has_id-await_id id ids = elim (Bool-cases (has_id id ids)) [
  | inl e ↦ rw (e, e) refl
  | inr e ↦ rw (e, ==_refl id) refl
]

has_id-await_id_keeps :
    (x id : ℕ) (ids : List ℕ) → has_id x ids ≡ true → has_id x (await_id id ids) ≡ true
unfolding has_id
has_id-await_id_keeps x id ids h = elim (Bool-cases (has_id id ids)) [
  | inl e ↦ rw e h
  | inr e ↦ rw e (ground (arith, h))
]

-- What one command adds, when its frame can be built.
pub record OneDone (s : Session) (c : PendingCommand) (d : Delivery) : Type 0 where
  pub no_exception : d.raised ≡ none
  pub itself : settled d c.id ≡ true
  pub still_awaited : (x : ℕ) → has_id x s.awaiting ≡ true → has_id x d.session.awaiting ≡ true

send-OneDone :
    (lost : ℕ → Bool) (s : Session) (c : PendingCommand) (bytes : Bytes)
    → OneDone s c (send lost s c (ok bytes))
unfolding send
send-OneDone lost s c bytes = elim (Bool-cases (lost c.id)) [
  | inl e ↦ rw e (record {
    no_exception = refl;
    itself = ground (arith, ==_refl c.id);
    still_awaited = λ x h. h;
  })
  | inr e ↦ rw e (record {
    no_exception = refl;
    itself = rw (has_id-await_id c.id s.awaiting) refl;
    still_awaited = λ x h. has_id-await_id_keeps x c.id s.awaiting h;
  })
]

deliver_one-OneDone :
    (lost : ℕ → Bool) (s : Session) (c : PendingCommand)
    → IsSendable c
    → OneDone s c (deliver_one lost s c)
unfolding deliver_one
deliver_one-OneDone lost s c (small, ascii, short) = elim (Bool-cases (is_refused s c)) [
  | inl e ↦ rw e (record {
    no_exception = refl;
    itself = ground (arith, ==_refl c.id);
    still_awaited = λ x h. h;
  })
  | inr e ↦
      let frame = built_frame proto_command (bump s).out_serial (command_content c.id c.command) in
      let done = send-OneDone lost (bump s) c (short_wire frame) in
      rw (e, build_command_total (bump s).out_serial c.id c.command (bump_lt s) small ascii short)
        (record {
          no_exception = done.no_exception;
          itself = done.itself;
          still_awaited = done.still_awaited;
        })
]

-- What one command and the rest of the loop leave, together.
settled-join :
    (d rest : Delivery) (id : ℕ)
    → (has_id id d.session.awaiting ≡ true → has_id id rest.session.awaiting ≡ true)
    → settled d id ≡ true
    → settled (join d rest) id ≡ true
unfolding join
settled-join d rest id keeps h = elim (Bool-cases (has_id id d.session.awaiting)) [
  | inl e ↦ rw (keeps e) refl
  | inr e ↦ ground (arith, h, e, is_completed-append id d.effects rest.effects)
]

settled-join_later :
    (d rest : Delivery) (id : ℕ) → settled rest id ≡ true → settled (join d rest) id ≡ true
unfolding join
settled-join_later d rest id h = ground (arith, h, is_completed-append id d.effects rest.effects)

pub record AllDone (s : Session) (cs : List PendingCommand) (d : Delivery) : Type 0 where
  pub no_exception : d.raised ≡ none
  pub each : All (IsSettled d) cs
  pub still_awaited : (x : ℕ) → has_id x s.awaiting ≡ true → has_id x d.session.awaiting ≡ true

All-join :
    (d rest : Delivery) (cs : List PendingCommand)
    → All (IsSettled rest) cs
    → All (IsSettled (join d rest)) cs
All-join d rest [] h = tt
All-join d rest (c ∷ cs) h = (settled-join_later d rest c.id h.0, All-join d rest cs h.1)

deliver_commands-AllDone :
    (lost : ℕ → Bool) (s : Session) (cs : List PendingCommand)
    → All IsSendable cs
    → AllDone s cs (deliver_commands lost s cs)
unfolding deliver_commands go_on join
deliver_commands-AllDone lost s [] h = record {
  no_exception = refl;
  each = tt;
  still_awaited = λ x k. k;
}
deliver_commands-AllDone lost s (c ∷ cs) h =
    let d = deliver_one lost s c in
    let one = deliver_one-OneDone lost s c h.0 in
    let rest = deliver_commands lost d.session cs in
    let others = deliver_commands-AllDone lost d.session cs h.1 in
    rw one.no_exception (record {
      no_exception = others.no_exception;
      each = (
        settled-join d rest c.id (others.still_awaited c.id) one.itself,
        All-join d rest cs others.each,
      );
      still_awaited = λ x k. others.still_awaited x (one.still_awaited x k);
    })

-- If every claimed command has at most 243 characters, all ASCII, and a number of 32 bits, the loop
-- raises nothing and settles each of them, wherever the connection is lost: its outcome is reported, or
-- it is awaited.
pub deliver_commands_settles :
    (lost : ℕ → Bool) (s : Session) (cs : List PendingCommand)
    → All IsSendable cs
    → ((deliver_commands lost s cs).raised ≡ none) × All (IsSettled (deliver_commands lost s cs)) cs
deliver_commands_settles lost s cs h =
    let done = deliver_commands-AllDone lost s cs h in (done.no_exception, done.each)
