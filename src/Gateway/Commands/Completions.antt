-- ===== src/Gateway/Commands/Completions.antt =====
-- What a sequence of `complete` calls of gps_gateway/commands.py makes of the command queue.
use gps_tracking.Prelude.{
  ℕ, ◌≡◌, refl, ap, ◌∙◌, Bool, true, false, ◌&&◌, if◌then◌else◌, All, map, Option, none, some, List,
  [], ◌∷◌, ◌==◌, arith, Bool-cases, inl, inr,
}
use gps_tracking.Protocol.Codec.Cell.{Text}
use gps_tracking.Gateway.Text.{text_eq}
use gps_tracking.Gateway.Commands.{
  sent, confirmed, failed, Reason, no_reply, Row, is_open, coalesce, status_of, complete_row,
  complete,
}

-- What `complete` is called with.
pub record Completion : Type 0 where
  pub id : ℕ
  pub device_id : Text
  pub ok : Bool
  pub reply : Option Text
  pub error : Option Reason

-- The calls of `complete`, one after the other, over the table.
abbrev pub complete_all : List Completion → List Row → List Row
complete_all [] rows = rows
complete_all (c ∷ cs) rows = complete_all cs (complete c.id c.device_id c.ok c.reply c.error rows)

-- Only that the time for a reply ran out.
abbrev pub is_timeout : Bool → Option Reason → Bool
is_timeout false (some no_reply) = true
is_timeout ok error = false

-- How a row that is waiting for its reply ends: a completion under another number or for another tracker is not
-- its own, a timeout leaves it waiting still, and the first of its own that is no timeout is final.
abbrev pub ends_as : Row → List Completion → Row
ends_as row [] = row
ends_as row (c ∷ cs) =
    let completed : Row = record row {
      status = if c.ok then confirmed else failed;
      reply = elim c.reply [ none ↦ row.reply | some text ↦ some text ];
      error = c.error;
    } in
    let later = ends_as completed cs in
    let others = ends_as row cs in
    if row.id == c.id && text_eq row.device_id c.device_id
    then (if is_timeout c.ok c.error then later else completed)
    else others

abbrev pub IsSent : Row → Type 0
IsSent row = row.status ≡ sent

-- The calls as one row sees them.
abbrev complete_row_all : List Completion → Row → Row
complete_row_all [] row = row
complete_row_all (c ∷ cs) row =
    complete_row_all cs (complete_row c.id c.device_id c.ok c.reply c.error row)

complete_all-map :
    (cs : List Completion) (rows : List Row) → complete_all cs rows ≡ map (complete_row_all cs) rows
unfolding complete
complete_all-map [] [] = refl
complete_all-map [] (row ∷ rows) = ap (◌∷◌ row) (complete_all-map [] rows)
complete_all-map (c ∷ cs) rows =
    complete_all-map cs (complete c.id c.device_id c.ok c.reply c.error rows) ∙ one rows
  where
    one :
        (rows : List Row)
        → map (complete_row_all cs) (complete c.id c.device_id c.ok c.reply c.error rows)
          ≡ map (complete_row_all (c ∷ cs)) rows
    one [] = refl
    one (row ∷ rows) =
        ap (◌∷◌ (complete_row_all cs (complete_row c.id c.device_id c.ok c.reply c.error row)))
          (one rows)

-- A row that is not open stays.
complete_row_all_closed :
    (cs : List Completion) (row : Row)
    → is_open row.status row.error ≡ false
    → complete_row_all cs row ≡ row
unfolding complete_row
complete_row_all_closed [] row h = refl
complete_row_all_closed (c ∷ cs) row h =
    let stays : complete_row c.id c.device_id c.ok c.reply c.error row ≡ row = ground (arith, h) in
    ap (complete_row_all cs) stays ∙ complete_row_all_closed cs row h

timeout_open :
    (ok : Bool) (error : Option Reason) → is_open (status_of ok) error ≡ is_timeout ok error
unfolding is_open
timeout_open ok error = ground arith

coalesce-eq :
    (text old : Option Text)
    → coalesce text old ≡ (elim text as (λ o. Option Text) [ none ↦ old | some text ↦ some text ])
unfolding coalesce
coalesce-eq none old = refl
coalesce-eq (some text) old = refl

-- What a row becomes of its own completion.
abbrev completed_row : Completion → Row → Row
completed_row c row = record row {
  status = if c.ok then confirmed else failed;
  reply = elim c.reply [ none ↦ row.reply | some text ↦ some text ];
  error = c.error;
}

complete_row_own :
    (c : Completion) (row : Row)
    → (row.id == c.id && text_eq row.device_id c.device_id) ≡ true
    → is_open row.status row.error ≡ true
    → complete_row c.id c.device_id c.ok c.reply c.error row ≡ completed_row c row
unfolding complete_row
complete_row_own c row own h =
    let guard : (row.id == c.id
          && text_eq row.device_id c.device_id
          && is_open row.status row.error)
        ≡ true =
      ground (arith, own, h) in
    rw (complete_row, guard, coalesce-eq c.reply row.reply) refl

complete_row_other :
    (c : Completion) (row : Row)
    → (row.id == c.id && text_eq row.device_id c.device_id) ≡ false
    → complete_row c.id c.device_id c.ok c.reply c.error row ≡ row
unfolding complete_row
complete_row_other c row other = ground (arith, other)

complete_row_all-ends_as :
    (cs : List Completion) (row : Row)
    → is_open row.status row.error ≡ true
    → complete_row_all cs row ≡ ends_as row cs
complete_row_all-ends_as [] row h = refl
complete_row_all-ends_as (c ∷ cs) row h =
    elim (Bool-cases (row.id == c.id && text_eq row.device_id c.device_id)) [
      | inr other ↦
          rw (ends_as, other, complete_row_other c row other) (complete_row_all-ends_as cs row h)
      | inl own ↦
          let done = ap (complete_row_all cs) (complete_row_own c row own h) in
          elim (Bool-cases (is_timeout c.ok c.error)) [
            | inl timeout ↦
                rw (ends_as, own, timeout)
                  (done
                    ∙ complete_row_all-ends_as cs (completed_row c row)
                        (timeout_open c.ok c.error ∙ timeout))
            | inr final ↦
                rw (ends_as, own, final)
                  (done
                    ∙ complete_row_all_closed cs (completed_row c row)
                        (timeout_open c.ok c.error ∙ final))
          ]
    ]

-- Over any sequence of completions, each row of a table of sent commands ends as the first of its own
-- completions that is no timeout says, also if timeouts came before it: a late answer replaces the `no_reply`,
-- and whatever comes after it, or is for another command or tracker, changes nothing.
pub complete_all_settles :
    (cs : List Completion) (rows : List Row)
    → All IsSent rows
    → complete_all cs rows ≡ map (λ row. ends_as row cs) rows
unfolding is_open
complete_all_settles cs rows h = complete_all-map cs rows ∙ each rows h
  where
    each :
        (rows : List Row)
        → All IsSent rows
        → map (complete_row_all cs) rows ≡ map (λ row. ends_as row cs) rows
    each [] h = refl
    each (row ∷ rows) h =
        let here : complete_row_all cs row ≡ ends_as row cs =
          complete_row_all-ends_as cs row (rw h.0 refl) in
        rw (here, each rows h.1) refl
