-- ===== src/Daemon/Mailbox.antt =====
-- backend/integrations/gmail_gcal/mailbox.py and, under it, history_list, fetch_message and
-- annotate_thread_participation of gmail_api.py: what has come into a mailbox since a cursor. What Gmail
-- answers is a parameter, with how it ends the pages of its history.
pub mod Fetched
pub mod History
pub mod Since
use email_summary.Prelude.{
  ℕ, String, Bool, true, false, not, ◌&&◌, Option, none, some, List, [], ◌∷◌, ◌++◌, str_eq, ◌==◌,
  if◌then◌else◌, take, select, some_pass,
}
use email_summary.Prelude.Sets.{is_member}
use email_summary.Accounts.Store.{given, or_text}

-- How a call of Google ends: ReauthRequired, another exception, an HttpError with its status, or an
-- answer.
pub data Reply {ℓ} (A : Type ℓ) : Type ℓ where
  signed_out broken_off : Reply A
  http_error : ℕ → Reply A
  replied : A → Reply A

infixl 5 ◌>>=◌
abbrev pub ◌>>=◌ {ℓ ℓ'} : {A : Type ℓ} {B : Type ℓ'} → Reply A → (A → Reply B) → Reply B
signed_out >>= next = signed_out
broken_off >>= next = broken_off
http_error code >>= next = http_error code
replied a >>= next = next a

-- A message as a listing names it.
pub record Listed : Type 0 where
  pub id : String
  pub labels : List String

pub record HistoryPage : Type 0 where
  pub messages : List Listed
  pub history_id : Option String

-- The pages of one listing: each but the last names a next one.
pub data Pages : Type 0 where
  ends : Reply HistoryPage → Pages
  more : HistoryPage → Pages → Pages

-- What a message holds, apart from its id.
pub record Content : Type 0 where
  pub thread : Option String
  pub text : String

-- What Gmail answers in one pass: the pages from a cursor, the current history id, a message, and the
-- messages of a thread.
pub record Gmail : Type 0 where
  pub pages : String → Pages
  pub current : Reply (Option String)
  pub message : String → Reply Content
  pub thread : String → Reply (List Listed)

-- `participated` is `none` where the key is absent.
pub record Mail : Type 0 where
  pub id : String
  pub thread : Option String
  pub participated : Option Bool
  pub text : String

pub record Payload : Type 0 where
  pub emails : List Mail
  pub sent : List Mail
  pub history_id : Option String
  pub stale : Bool

-- A listing that Gmail answered: the ids added to the inbox, those sent, and the last history id.
pub record Listing : Type 0 where
  pub added : List String
  pub sent : List String
  pub latest : String

abbrev pub added_in : List Listed → List String
added_in [] = []
added_in (m ∷ ms) =
    let rest = added_in ms in if is_member "INBOX" m.labels then m.id ∷ rest else rest

abbrev pub sent_in : List Listed → List String
sent_in [] = []
sent_in (m ∷ ms) =
    let rest = sent_in ms in
    if not (is_member "INBOX" m.labels) && is_member "SENT" m.labels then m.id ∷ rest else rest

abbrev pub newest : HistoryPage → String → String
newest p latest = if given p.history_id then or_text p.history_id "" else latest

-- The loop of `history_list`
unfoldable pub read_history : Pages → String → Reply Listing
read_history (ends reply) latest = reply >>= (λ p.
    replied
      (record { added = added_in p.messages; sent = sent_in p.messages; latest = newest p latest }))
read_history (more p pages) latest = read_history pages (newest p latest) >>= (λ l.
    replied (record {
      added = added_in p.messages ++ l.added;
      sent = sent_in p.messages ++ l.sent;
      latest = l.latest;
    }))

-- `list(dict.fromkeys(ids))`
abbrev pub from_keys : List String → List String
from_keys [] = []
from_keys (id ∷ ids) = id ∷ select (λ other. not (str_eq other id)) (from_keys ids)

-- `history_list`; `none` where the cursor is stale
unfoldable pub history_list : Pages → String → Reply (Option Listing)
history_list pages last = elim (read_history pages last) [
  | signed_out ↦ signed_out
  | broken_off ↦ broken_off
  | http_error code ↦ if code == 404 then replied none else http_error code
  | replied l ↦ replied (some (record l { added = from_keys l.added; sent = from_keys l.sent }))
]

abbrev pub max_emails : ℕ
max_emails = 40

-- `fetch_message`
abbrev pub fetch_message : Gmail → String → Reply Mail
fetch_message gmail id =
    gmail.message id
    >>= (λ c. replied (record { id = id; thread = c.thread; participated = none; text = c.text }))

-- The loop of `_fetch_ids`
unfoldable pub fetch_each : Gmail → List String → Reply (List Mail)
fetch_each gmail [] = replied []
fetch_each gmail (id ∷ ids) =
    let rest = fetch_each gmail ids in
    elim (fetch_message gmail id) [
      | signed_out ↦ signed_out
      | broken_off ↦ broken_off
      | http_error code ↦ rest
      | replied m ↦ rest >>= (λ mails. replied (m ∷ mails))
    ]

-- `_fetch_ids`
abbrev pub fetch_ids : Gmail → List String → Reply (List Mail)
fetch_ids gmail ids = fetch_each gmail (take max_emails ids)

-- `thread_has_user_message`
abbrev pub has_user_message : String → List Listed → Bool
has_user_message own = some_pass (λ m. not (str_eq m.id own) && is_member "SENT" m.labels)

abbrev pub takes_part : Bool → Mail → Mail
takes_part b m = record m { participated = some b }

-- One round of `annotate_thread_participation`
abbrev pub annotate_one : Gmail → Mail → Reply Mail
annotate_one gmail m =
    if given m.thread
    then elim (gmail.thread (or_text m.thread "")) [
      | signed_out ↦ signed_out
      | broken_off ↦ broken_off
      | http_error code ↦ replied (takes_part false m)
      | replied ms ↦ replied (takes_part (has_user_message m.id ms) m)
    ]
    else replied (takes_part false m)

-- `annotate_thread_participation`
unfoldable pub annotate : Gmail → List Mail → Reply (List Mail)
annotate gmail [] = replied []
annotate gmail (m ∷ mails) =
    annotate_one gmail m >>= (λ one. annotate gmail mails >>= (λ rest. replied (one ∷ rest)))

-- `fetch_since_history` of a cursor that is not stale
unfoldable pub fetch_listed : Gmail → Listing → Reply Payload
fetch_listed gmail l = do
  found ← fetch_ids gmail l.added
  emails ← annotate gmail found
  sent ← fetch_ids gmail l.sent
  replied (record { emails = emails; sent = sent; history_id = some l.latest; stale = false })

abbrev pub bootstrap : Gmail → Reply Payload
bootstrap gmail =
    gmail.current
    >>= (λ id. replied (record { emails = []; sent = []; history_id = id; stale = true }))

-- `fetch_since_history`
unfoldable pub fetch_since_history : Gmail → String → Reply Payload
fetch_since_history gmail last =
    history_list (gmail.pages last) last
    >>= (λ o. elim o [ none ↦ bootstrap gmail | some l ↦ fetch_listed gmail l ])
