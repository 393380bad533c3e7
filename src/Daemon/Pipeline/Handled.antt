-- ===== src/Daemon/Pipeline/Handled.antt =====
-- Every message that is fetched goes to a worker once, and the cursor follows what was fetched.
use email_summary.Prelude.{
  ◌+◌, String, ◌≡◌, Bool, false, Option, none, some, List, [], ◌∷◌, ◌++◌, str_eq, count,
}
use email_summary.Accounts.Store.{or_text}
use email_summary.Daemon.Mailbox.{Reply, replied, Gmail, Mail, Payload, fetch_since_history}
use email_summary.Daemon.Mailbox.Fetched.{by_id}
use email_summary.Daemon.Mailbox.Since.{left_behind, Accounts}
use email_summary.Daemon.Pipeline.{
  Cursor, load_cursor, Act, request_drafted, request_failed, drafted, drafts_failed, Workers,
  process_account,
}

-- The received messages that an act is about.
abbrev pub received_in : Act → List Mail
received_in (request_drafted m) = m ∷ []
received_in (request_failed m) = m ∷ []
received_in (drafted mails) = mails
received_in (drafts_failed mails) = mails
received_in _ = []

abbrev pub received : List Act → List Mail
received [] = []
received (a ∷ acts) = received_in a ++ received acts

-- Those whose worker returned, and those whose worker raised, which is reported.
abbrev finished_in : Act → List Mail
finished_in (request_drafted m) = m ∷ []
finished_in (drafted mails) = mails
finished_in _ = []

abbrev reported_in : Act → List Mail
reported_in (request_failed m) = m ∷ []
reported_in (drafts_failed mails) = mails
reported_in _ = []

abbrev pub finished : List Act → List Mail
finished [] = []
finished (a ∷ acts) = finished_in a ++ finished acts

abbrev pub reported : List Act → List Mail
reported [] = []
reported (a ∷ acts) = reported_in a ++ reported acts

abbrev cursor_of : Option Cursor → String
cursor_of file = or_text (load_cursor file).last_history_id ""

-- There is a cursor still; the messages up to it are those up to the first one, those that were finished
-- or reported, and those left behind; and the expiry of the watch is as it was.
abbrev pub Follows :
    (String → List String)
    → (String → Bool)
    → List Act
    → List String
    → Option Cursor
    → Option Cursor
    → Type 0
Follows upto q acts lost file file' =
    (str_eq (cursor_of file') "" ≡ false)
    × (count q (upto (cursor_of file))
          + count (by_id q) (finished acts)
          + count (by_id q) (reported acts)
          + count q lost
        ≡ count q (upto (cursor_of file')))
    × ((load_cursor file').watch_expiration ≡ (load_cursor file).watch_expiration)

-- What one pass leaves behind, where its fetch answers.
abbrev behind_reply : (String → List String) → Gmail → String → Reply Payload → List String
behind_reply gap gmail last (replied p) = left_behind gap gmail last p
behind_reply gap gmail last _ = []

abbrev behind : (String → List String) → Gmail → Option Cursor → List String
behind gap gmail file =
    behind_reply gap gmail (cursor_of file) (fetch_since_history gmail (cursor_of file))

module _ (gap : String → List String) (is_bot : Mail → Bool) (w : Workers) (auto : Bool) where
  -- What the passes leave behind, each from the cursor at its time.
  abbrev pub losses : List Gmail → Option Cursor → List String
  losses [] file = []
  losses (gmail ∷ gmails) file = elim (process_account is_bot w auto gmail file) [
    | none ↦ losses gmails file
    | some first ↦ behind gap gmail file ++ losses gmails first.1
  ]

module _ (upto gap : String → List String) (q : String → Bool) (is_bot : Mail → Bool) (w : Workers)
    (auto : Bool) where
  abbrev end_of : List Act → Option Cursor → Option (List Act × Option Cursor)
  end_of acts file = some (acts, file)

  abbrev Ends : Gmail → Option Cursor → List Act → Option Cursor → Type 0
  Ends gmail file acts file' = Follows upto q acts (behind gap gmail file) file file'
