-- ===== src/Daemon/Pipeline.antt =====
-- backend/daemons/pipeline.py with the cursor of backend/accounts/state.py: one pass over the mail of
-- an account. What Gmail answers, what counts as a request to the bot, and which of the three workers
-- raise are arguments.
pub mod Handled
mod Tests
use email_summary.Prelude.{
  String, Bool, true, false, not, ◌&&◌, Option, none, some, List, [], ◌∷◌, ◌++◌, str_eq,
  if◌then◌else◌, select,
}
use email_summary.Accounts.Store.{given, or_text}
use email_summary.Daemon.Mailbox.{
  signed_out, broken_off, http_error, replied, Gmail, Mail, Payload, fetch_since_history,
}

-- The state file of an account.
pub record Cursor : Type 0 where
  pub last_history_id : Option String
  pub watch_expiration : Option String

-- `load`; `none` where there is no file
abbrev pub load_cursor : Option Cursor → Cursor
load_cursor none = record { last_history_id = none; watch_expiration = none }
load_cursor (some cursor) = cursor

-- `update(lastHistoryId=...)`
abbrev pub advance : String → Option Cursor → Option Cursor
advance id file = some (record (load_cursor file) { last_history_id = some id })

-- What a pass does, in order; `_failed` where the worker raised and the error was reported.
pub data Act : Type 0 where
  no_cursor asked_to_sign_in : Act
  bootstrapped : Option String → Act
  request_drafted request_failed : Mail → Act
  drafted drafts_failed scheduled schedule_failed : List Mail → Act

-- Whether the workers return.
pub record Workers : Type 0 where
  pub draft_request : Mail → Bool
  pub draft_replies : List Mail → Bool
  pub schedules : List Mail → Bool

-- The loop over the requests to the bot.
abbrev pub draft_requests : Workers → List Mail → List Act
draft_requests w [] = []
draft_requests w (m ∷ mails) =
    (if w.draft_request m then request_drafted m else request_failed m) ∷ draft_requests w mails

abbrev pub draft_auto : Workers → List Mail → List Act
draft_auto w [] = []
draft_auto w (m ∷ mails) =
    (if w.draft_replies (m ∷ mails) then drafted (m ∷ mails) else drafts_failed (m ∷ mails)) ∷ []

-- `if sent and account.auto_schedule`
abbrev pub schedule_sent : Workers → Bool → List Mail → List Act
schedule_sent w auto_schedule [] = []
schedule_sent w auto_schedule (m ∷ mails) =
    if auto_schedule
    then (if w.schedules (m ∷ mails) then scheduled (m ∷ mails) else schedule_failed (m ∷ mails))
      ∷ []
    else []

abbrev pub after_pass : Payload → Option Cursor → Option Cursor
after_pass p file = if given p.history_id then advance (or_text p.history_id "") file else file

-- The pass once the mail is fetched.
unfoldable pub process_payload : (Mail → Bool) → Workers → Bool → Payload → List Act
process_payload is_bot_request w auto_schedule p =
    (if p.stale then bootstrapped p.history_id ∷ [] else [])
    ++ draft_requests w (select is_bot_request p.emails)
    ++ draft_auto w (select (λ m. not (is_bot_request m)) p.emails)
    ++ schedule_sent w auto_schedule p.sent

-- `process_account`: what it did and the state file after it; `none` where it raises
unfoldable pub process_account :
    (Mail → Bool) → Workers → Bool → Gmail → Option Cursor → Option (List Act × Option Cursor)
process_account is_bot_request w auto_schedule gmail file =
    let last = (load_cursor file).last_history_id in
    let passed : Option (List Act × Option Cursor) =
      elim (fetch_since_history gmail (or_text last "")) [
        | signed_out ↦ some (asked_to_sign_in ∷ [], file)
        | broken_off ↦ none
        | http_error code ↦ none
        | replied p ↦ some (process_payload is_bot_request w auto_schedule p, after_pass p file)
      ] in
    if given last then passed else some (no_cursor ∷ [], file)

-- Passes one after another, each with what Gmail answers in it; one that raises leaves the file as it is.
unfoldable pub mail_passes :
    (Mail → Bool) → Workers → Bool → List Gmail → Option Cursor → List Act × Option Cursor
mail_passes is_bot_request w auto_schedule [] file = ([], file)
mail_passes is_bot_request w auto_schedule (gmail ∷ gmails) file =
    elim (process_account is_bot_request w auto_schedule gmail file) [
      | none ↦ mail_passes is_bot_request w auto_schedule gmails file
      | some first ↦
          let rest = mail_passes is_bot_request w auto_schedule gmails (first.1) in
          (first.0 ++ rest.0, rest.1)
    ]
