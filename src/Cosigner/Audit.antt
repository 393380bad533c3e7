-- ===== src/Cosigner/Audit.antt =====
-- cosigner/audit.py: the two SQLite tables, what is written for a request, and the counters that
-- the limiter reads. Times are whole seconds; `requests` holds the newest row first, which is the
-- order of `id` downwards. Every function runs under the module's lock, so each is one step.
pub mod Counts
pub mod Distinct
pub mod Grants
use email_summary.Prelude.{
  ℕ, ◌+◌, String, Bool, true, false, ◌&&◌, Option, none, some, List, [], ◌∷◌, map, str_eq, ltb, leb,
  if◌then◌else◌, count, select, some_pass, take, length,
}
use email_summary.Cosigner.Reason.{Reason}
use email_summary.Prelude.Sets.{is_member, update}

-- The names in `policy.ACTIONS`.
pub data Action : Type 0 where
  wrap unwrap_and_sign unwrap sign_dpop rewrap : Action

abbrev pub action_eq : Action → Action → Bool
action_eq wrap wrap = true
action_eq unwrap_and_sign unwrap_and_sign = true
action_eq unwrap unwrap = true
action_eq sign_dpop sign_dpop = true
action_eq rewrap rewrap = true
action_eq _ _ = false

pub data Decision : Type 0 where
  allow deny : Decision

abbrev pub is_allow : Decision → Bool
is_allow allow = true
is_allow deny = false

pub record Row : Type 0 where
  pub ts : ℕ
  pub uid : String
  pub action : Action
  pub decision : Decision
  pub reason : Option Reason
  pub fingerprint : Option String
  pub measurement : Option String
  pub attested : Bool

pub record Grant : Type 0 where
  pub uid : String
  pub action : Action
  pub first_granted_ts : ℕ

pub record Db : Type 0 where
  pub requests : List Row
  pub grants : List Grant

abbrev pub empty_db : Db
empty_db = record { requests = []; grants = [] }

-- `PRIMARY KEY (uid, action)`
abbrev pub has_grant : String → Action → List Grant → Bool
has_grant uid action = some_pass (λ g. str_eq g.uid uid && action_eq g.action action)

-- `INSERT OR IGNORE INTO grants`
abbrev pub insert_or_ignore : Grant → List Grant → List Grant
insert_or_ignore g gs = if has_grant g.uid g.action gs then gs else g ∷ gs

-- `uid or ""`
abbrev pub stored_uid : Option String → String
stored_uid none = ""
stored_uid (some uid) = uid

-- The row as its columns, and the grant that goes with an allowed one, in one transaction.
unfoldable pub insert_row : Row → Db → Db
insert_row r db = record {
  requests = r ∷ db.requests;
  grants =
      if is_allow r.decision
      then insert_or_ignore (record { uid = r.uid; action = r.action; first_granted_ts = r.ts })
          db.grants
      else db.grants;
}

-- `record`, at the time `at`
unfoldable pub record_decision :
    Option String
    → Action
    → Decision
    → Option Reason
    → Option String
    → Option String
    → Bool
    → ℕ
    → Db
    → Db
unfolding insert_row
record_decision uid action decision reason fingerprint measurement attested at db =
    insert_row
      (record {
        ts = at;
        uid = stored_uid uid;
        action = action;
        decision = decision;
        reason = reason;
        fingerprint = fingerprint;
        measurement = measurement;
        attested = attested;
      })
      db

-- The WHERE clauses.
abbrev pub since_all : ℕ → Row → Bool
since_all since r = is_allow r.decision && leb since r.ts

abbrev pub since_action : ℕ → Action → Row → Bool
since_action since action r = since_all since r && action_eq r.action action

abbrev pub count_all : Db → ℕ → ℕ
count_all db since = count (since_all since) db.requests

abbrev pub count_all_for_uid : Db → ℕ → String → ℕ
count_all_for_uid db since uid = count (λ r. since_all since r && str_eq r.uid uid) db.requests

abbrev pub count_action : Db → ℕ → Action → ℕ
count_action db since action = count (since_action since action) db.requests

abbrev pub count_action_for_uid : Db → ℕ → Action → String → ℕ
count_action_for_uid db since action uid =
    count (λ r. since_action since action r && str_eq r.uid uid) db.requests

-- The `action` argument: None, one name, or a tuple of names, which is not empty.
pub data Actions : Type 0 where
  every : Actions
  one : Action → Actions
  several : Action → List Action → Actions

abbrev pub has_action : Action → List Action → Bool
has_action a [] = false
has_action a (b ∷ bs) = if action_eq a b then true else has_action a bs

-- `dict.fromkeys`: the first of equal names stays where it is.
abbrev pub dedup : List Action → List Action → List Action
dedup seen [] = []
dedup seen (a ∷ as') =
    let fresh = dedup (a ∷ seen) as' in
    let again = dedup seen as' in if has_action a seen then again else a ∷ fresh

-- `_actions`
unfoldable pub action_names : Actions → Option (List Action)
action_names every = none
action_names (one a) = some (a ∷ [])
action_names (several a as') = some (dedup [] (a ∷ as'))

abbrev pub count_one : Db → ℕ → Option String → Action → ℕ
count_one db since none a = count_action db since a
count_one db since (some uid) a = count_action_for_uid db since a uid

abbrev pub count_each : Db → ℕ → Option String → List Action → ℕ
count_each db since uid [] = 0
count_each db since uid (a ∷ as') = count_one db since uid a + count_each db since uid as'

abbrev pub granted_in : Db → ℕ → Option String → Option (List Action) → ℕ
granted_in db since none none = count_all db since
granted_in db since (some uid) none = count_all_for_uid db since uid
granted_in db since uid (some as') = count_each db since uid as'

unfoldable pub granted_since : Db → ℕ → Actions → Option String → ℕ
unfolding action_names
granted_since db since action uid = granted_in db since uid (action_names action)

-- `UIDS_FOR_ACTION`; the repetitions go when the caller adds the column to a set.
abbrev pub uids_for_action : Db → ℕ → Action → List String
uids_for_action db since action = map (λ r. r.uid) (select (since_action since action) db.requests)

abbrev pub seen_uids : Db → ℕ → List Action → List String → List String
seen_uids db since [] seen = seen
seen_uids db since (a ∷ as') seen =
    seen_uids db since as' (update seen (uids_for_action db since a))

-- The caller names at least one action: a tuple with a first item.
unfoldable pub distinct_uids_since : Db → ℕ → Action → List Action → ℕ
distinct_uids_since db since a as' = length (seen_uids db since (dedup [] (a ∷ as')) [])

-- `uid = NULL` matches no row.
unfoldable pub ever_granted : Db → Option String → Action → Bool
ever_granted db none action = false
ever_granted db (some uid) action = has_grant uid action db.grants

unfoldable pub recent : ℕ → Db → List Row
recent limit db = take limit db.requests

-- `MIN(ts)` over the allowed rows of a pair, not above `bound`.
abbrev pub min_ts : String → Action → ℕ → List Row → ℕ
min_ts uid action bound [] = bound
min_ts uid action bound (r ∷ rs) =
    let rest = min_ts uid action bound rs in
    if is_allow r.decision && str_eq r.uid uid && action_eq r.action action && ltb r.ts rest
    then r.ts
    else rest

-- `BACKFILL`: a grant for each pair that the log shows as allowed, at its first time.
abbrev pub backfill_from : List Row → List Row → List Grant → List Grant
backfill_from log [] gs = gs
backfill_from log (r ∷ rs) gs =
    let rest = backfill_from log rs gs in
    if is_allow r.decision
    then insert_or_ignore
        (record {
          uid = r.uid;
          action = r.action;
          first_granted_ts = min_ts r.uid r.action r.ts log;
        })
        rest
    else rest

-- What `connect` does to a database that it opens.
unfoldable pub backfill : Db → Db
backfill db = record db { grants = backfill_from db.requests db.requests db.grants }
