-- ===== src/Gateway/Commands.antt =====
-- gps_gateway/commands.py: what counts as a failed reply, and the rows of the command queue.
pub mod Replies
pub mod Completions
use gps_tracking.Prelude.{
  ℕ, ◌+◌, ◌≤◌, ◌<◌, Bool, true, false, ◌&&◌, ◌||◌, Option, none, some, List, [], ◌∷◌, leb, ◌==◌,
  if◌then◌else◌,
}
use gps_tracking.Protocol.Bytes.{Bytes}
use gps_tracking.Protocol.Codec.Cell.{Text}
use gps_tracking.Protocol.Framing.{starts_with}
use gps_tracking.Gateway.Text.{text_eq}

-- `re.IGNORECASE` on the letters of the words: A to Z, and the three characters beyond ASCII that it
-- takes for `i` and `k`.
pub fold_case : ℕ → ℕ
fold_case c =
    if leb b'A' c && leb c b'Z'
    then c + 32
    else if c == 0x130 || c == 0x131
    then b'i'
    else if c == 0x212a
    then b'k'
    else c

pub fold_text : Text → Text
fold_text [] = []
fold_text (c ∷ text) = fold_case c ∷ fold_text text

abbrev pub failure_words : List Text
failure_words =
    (b'f' ∷ b'a' ∷ b'i' ∷ b'l' ∷ [])
    ∷ (b'e' ∷ b'r' ∷ b'r' ∷ b'o' ∷ b'r' ∷ [])
    ∷ (b'i' ∷ b'n' ∷ b'v' ∷ b'a' ∷ b'l' ∷ b'i' ∷ b'd' ∷ [])
    ∷ (b'u' ∷ b'n' ∷ b'k' ∷ b'n' ∷ b'o' ∷ b'w' ∷ b'n' ∷ [])
    ∷ []

pub starts_with_any : List Text → Text → Bool
starts_with_any [] text = false
starts_with_any (word ∷ words) text = starts_with word text || starts_with_any words text

-- `_FAILURE_WORDS.search`
pub search_words : List Text → Text → Bool
search_words words [] = starts_with_any words []
search_words words (c ∷ text) = starts_with_any words (c ∷ text) || search_words words text

pub reply_is_failure : Text → Bool
reply_is_failure text = search_words failure_words (fold_text text)

-- The columns of `device_commands` that `_COMPLETE` reads and writes.
pub data Status : Type 0 where
  queued sent confirmed failed expired : Status

pub data Reason : Type 0 where
  no_reply ignition_on connection_lost tracker_reported_failure : Reason

pub record Row : Type 0 where
  pub id : ℕ
  pub device_id : Text
  pub status : Status
  pub reply : Option Text
  pub error : Option Reason

-- `status = 'sent' OR (status = 'failed' AND error = 'no_reply')`
pub is_open : Status → Option Reason → Bool
is_open sent error = true
is_open failed (some no_reply) = true
is_open status error = false

pub coalesce : Option Text → Option Text → Option Text
coalesce none old = old
coalesce (some text) old = some text

abbrev pub status_of : Bool → Status
status_of ok = if ok then confirmed else failed

pub complete_row : ℕ → Text → Bool → Option Text → Option Reason → Row → Row
complete_row command_id device_id ok reply error row =
    if row.id == command_id && text_eq row.device_id device_id && is_open row.status row.error
    then record row { status = status_of ok; reply = coalesce reply row.reply; error = error }
    else row

-- `PostgresCommandQueue.complete`
pub complete : ℕ → Text → Bool → Option Text → Option Reason → List Row → List Row
complete command_id device_id ok reply error [] = []
complete command_id device_id ok reply error (row ∷ rows) =
    complete_row command_id device_id ok reply error row
    ∷ complete command_id device_id ok reply error rows
