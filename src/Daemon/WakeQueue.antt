-- ===== src/Daemon/WakeQueue.antt =====
-- wake_queue.py, and `process_accounts` of daemon_loop.py.
pub mod Drained
use email_summary.Prelude.{
  String, Bool, true, false, Option, none, some, List, [], ◌∷◌, ◌++◌, str_eq, if◌then◌else◌,
}
use email_summary.Prelude.Sets.{is_member}
use email_summary.Accounts.Store.{Result, ok, err, ◌>>=◌, State, given, or_text}
use email_summary.Accounts.Lookup.{Account, get_account}

-- A line of the spool; `account_id` is the key of the previous release.
pub record Woken : Type 0 where
  pub email : Option String
  pub account_id : Option String

-- `enqueue`
abbrev pub wake : String → List Woken → List Woken
wake email spool = spool ++ record { email = some email; account_id = none } ∷ []

-- `entry.get("email") or entry.get("account_id")`
abbrev pub value_of : Woken → String
value_of line = if given line.email then or_text line.email "" else or_text line.account_id ""

-- The loop of `drain`, with what was seen before.
abbrev pub drain_onto : List String → List Woken → List String
drain_onto seen [] = seen
drain_onto seen (line ∷ spool) =
    if str_eq (value_of line) ""
    then drain_onto seen spool
    else if is_member (value_of line) seen
    then drain_onto seen spool
    else drain_onto (seen ++ value_of line ∷ []) spool

-- `drain`
unfoldable pub wake_drain : List Woken → List String
wake_drain spool = drain_onto [] spool

abbrev pub onto : Option Account → List Account → List Account
onto none rest = rest
onto (some a) rest = a ∷ rest

-- `process_accounts`: the accounts that are run, in order
unfoldable pub process_accounts : Option String → List String → State → Result (List Account)
process_accounts bot [] s = ok []
process_accounts bot (id ∷ ids) s = do
  acct ← get_account bot id s
  rest ← process_accounts bot ids s
  ok (onto acct rest)
