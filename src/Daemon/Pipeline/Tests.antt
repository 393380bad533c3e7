-- ===== src/Daemon/Pipeline/Tests.antt =====
-- Passes over a mailbox of four messages.
use email_summary.Prelude.{
  String, ◌≡◌, refl, Bool, false, true, Option, none, some, List, [], ◌∷◌, ◌++◌, str_eq,
  if◌then◌else◌,
}
use email_summary.Daemon.Mailbox.{
  Reply, signed_out, broken_off, http_error, replied, Listed, HistoryPage, Pages, ends, more, Gmail,
  Mail, read_history, history_list, fetch_each, annotate, fetch_listed, fetch_since_history,
}
use email_summary.Daemon.Mailbox.History.{ending, last_named}
use email_summary.Daemon.Mailbox.Since.{listed_ids}
use email_summary.Daemon.Pipeline.{
  Cursor, Workers, asked_to_sign_in, bootstrapped, request_drafted, drafts_failed, mail_passes,
  process_account, process_payload,
}
use email_summary.Daemon.Pipeline.Handled.{losses}

-- The messages up to a history id, and what lies beyond one that is too old.
abbrev upto : String → List String
upto id =
    if str_eq id "2"
    then "m1" ∷ []
    else if str_eq id "3"
    then "m1" ∷ "m2" ∷ "m3" ∷ []
    else if str_eq id "9"
    then "m1" ∷ "m2" ∷ "m3" ∷ "m4" ∷ []
    else []

abbrev gap : String → List String
gap last = "m4" ∷ []

-- The message m3 can not be fetched, and m1 is a request to the bot.
abbrev mailbox : String → Pages → Reply (Option String) → Gmail
mailbox cursor pages current = record {
  pages = λ last. if str_eq last cursor then pages else ends broken_off;
  current = current;
  message = λ id.
      if str_eq id "m3"
      then http_error 404
      else replied (record { thread = none; text = if str_eq id "m1" then "bot" else "hello" });
  thread = λ id. broken_off;
}

abbrev received : String → Listed
received id = record { id = id; labels = "UNREAD" ∷ "INBOX" ∷ [] }

abbrev page : List Listed → String → HistoryPage
page messages id = record { messages = messages; history_id = some id }

abbrev first_pages : Pages
first_pages = more (page (received "m1" ∷ []) "1") (ends (replied (page (received "m1" ∷ []) "2")))

abbrev next_pages : Pages
next_pages = ends (replied (page (received "m2" ∷ received "m3" ∷ []) "3"))

abbrev gmails : List Gmail
gmails =
    mailbox "1" first_pages broken_off
    ∷ mailbox "2" (ends signed_out) broken_off
    ∷ mailbox "2" next_pages broken_off
    ∷ mailbox "3" (ends (http_error 404)) (replied (some "9"))
    ∷ []

-- A listing, or the refusal of a cursor that is too old, at the one cursor where the mailbox answers.
abbrev Lists : String → Pages → Reply (Option String) → Type 0
Lists cursor pages current =
    ((p : HistoryPage)
      → ending pages ≡ replied p
      → upto (last_named pages cursor) ≡ upto cursor ++ listed_ids pages)
    × ((id : String)
        → ending pages ≡ http_error 404
        → current ≡ replied (some id)
        → upto id ≡ upto cursor ++ gap cursor)

abbrev pages_at : String → Pages → String → Pages
pages_at cursor pages last = if str_eq last cursor then pages else ends broken_off

abbrev failing : Workers
failing = record {
  draft_request = λ m. true;
  draft_replies = λ mails. false;
  schedules = λ mails. true;
}

abbrev is_bot : Mail → Bool
is_bot m = str_eq m.text "bot"

abbrev bot_request : Mail
bot_request = record { id = "m1"; thread = none; participated = some false; text = "bot" }

abbrev plain : Mail
plain = record { id = "m2"; thread = none; participated = some false; text = "hello" }

abbrev file : Option Cursor
file = some (record { last_history_id = some "1"; watch_expiration = some "9" })

lost : losses gap is_bot failing false gmails file ≡ "m3" ∷ "m4" ∷ []
unfolding process_account process_payload fetch_since_history history_list read_history fetch_each
    annotate fetch_listed
lost = refl

acts :
    (mail_passes is_bot failing false gmails file).0
    ≡ request_drafted bot_request
      ∷ asked_to_sign_in
      ∷ drafts_failed (plain ∷ [])
      ∷ bootstrapped (some "9")
      ∷ []
unfolding mail_passes process_account process_payload fetch_since_history history_list read_history
    fetch_each annotate fetch_listed
acts = refl
