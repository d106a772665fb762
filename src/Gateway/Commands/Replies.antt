-- ===== src/Gateway/Commands/Replies.antt =====
-- What a late or a repeated answer does to a command's row, and which replies are failures.
use gps_tracking.Prelude.{
  ℕ, ◌≡◌, ◌↔◌, ◌⊎◌, inl, inr, refl, ap, Bool, true, ◌&&◌, Option, some, List, [], ◌∷◌, ◌++◌, ◌==◌,
  arith, Bool-cases,
}
use gps_tracking.Protocol.Codec.Cell.{Text}
use gps_tracking.Gateway.Text.{text_eq, text_eq_iff}
use gps_tracking.Gateway.Commands.{
  starts_with_any, search_words, Status, sent, failed, Reason, no_reply, Row, is_open, coalesce,
  status_of, complete_row,
}

-- A command is only ever completed by its own tracker, under its own number, and while it waits for an
-- answer: sent, or given up for want of a reply. Otherwise its row stays as it was.
pub complete_row_guard :
    (id : ℕ) (device : Text) (ok : Bool) (reply : Option Text) (error : Option Reason) (row : Row)
    → ((row.id ≡ id)
        × (row.device_id ≡ device)
        × ((row.status ≡ sent) ⊎ ((row.status ≡ failed) × (row.error ≡ some no_reply)))
        × (complete_row id device ok reply error row ≡ record row {
          status = status_of ok;
          reply = coalesce reply row.reply;
          error = error;
        }))
      ⊎ (complete_row id device ok reply error row ≡ row)
unfolding complete_row
complete_row_guard id device ok reply error row =
    elim (Bool-cases
      (row.id == id && text_eq row.device_id device && is_open row.status row.error)) [
        | inr shut ↦ inr (rw shut)
        | inl open_ ↦ inl (
          ground arith,
          (text_eq_iff row.device_id device).0 (ground arith),
          waiting row.status row.error (ground arith),
          rw open_,
        )
      ]
  where
    waiting :
        (s : Status) (e : Option Reason)
        → is_open s e ≡ true
        → (s ≡ sent) ⊎ ((s ≡ failed) × (e ≡ some no_reply))
    waiting s e h = unfold is_open in ground arith

-- `text` holds one of the words somewhere.
abbrev pub Holds : List Text → Text → Type 0
Holds words text =
    (before : Text) × (rest : Text) × (text ≡ before ++ rest) × (starts_with_any words rest ≡ true)

search_words→Holds :
    (words : List Text) (text : Text) → search_words words text ≡ true → Holds words text
unfolding search_words
search_words→Holds words [] h = ([], [], refl, h)
search_words→Holds words (c ∷ text) h = elim (Bool-cases (starts_with_any words (c ∷ text))) [
  | inl here ↦ ([], c ∷ text, refl, here)
  | inr later ↦
      let (before, rest, e, w) = search_words→Holds words text (ground arith) in
      (c ∷ before, rest, ap (◌∷◌ c) e, w)
]

search_words-append :
    (words : List Text) (before rest : Text)
    → starts_with_any words rest ≡ true
    → search_words words (before ++ rest) ≡ true
unfolding search_words
search_words-append words [] [] h = h
search_words-append words [] (c ∷ rest) h = rw h
search_words-append words (b ∷ before) rest h =
    ground (arith, search_words-append words before rest h)

-- The search finds a word exactly where the text has one at some place.
pub search_words_iff :
    (words : List Text) (text : Text) → (search_words words text ≡ true) ↔ Holds words text
search_words_iff words text = (
  search_words→Holds words text,
  λ h. let (before, rest, e, w) = h in rw e (search_words-append words before rest w),
)
