-- ===== src/Cosigner/Policy/Outcomes.antt =====
-- What one call of `authorize` answers and writes.
use mathlib.Core.Option
use email_summary.Prelude.{
  ℕ, String, ◌≡◌, refl, ap, ◌≢◌, ◌↔◌, ◌⊎◌, true, false, not, Option, none, some, List, [], ◌∷◌,
  arith, is_some, length, inl, inr, Option-cases,
}
use email_summary.Prelude.Sets.{update}
use email_summary.Cosigner.Audit.{
  Action, allow, deny, insert_row, is_allow, Row, Grant, Db, Actions, every, one, several, dedup,
  stored_uid, count_each, uids_for_action, seen_uids, record_decision, granted_since,
  distinct_uids_since, ever_granted,
}
use email_summary.Cosigner.Policy.{
  Switches, Limits, Clock, Request, Refusal, disabled_reason, wrap_refusal, rate_refusal, decide,
  authorize,
}

-- A denied row is in no count.
module _ (r : Row) (denied : is_allow r.decision ≡ false) (rows : List Row) (gs : List Grant)
    (since : ℕ) where
  abbrev before : Db
  before = record { requests = rows; grants = gs }

  abbrev after : Db
  after = record { requests = r ∷ rows; grants = gs }

  count_each-denied :
      (uid : Option String) (as' : List Action)
      → count_each after since uid as' ≡ count_each before since uid as'
  count_each-denied uid [] = refl
  count_each-denied none (a ∷ as') = rw denied (rw (count_each-denied none as'))
  count_each-denied (some u) (a ∷ as') = rw denied (rw (count_each-denied (some u) as'))

  granted_since-denied :
      (as' : Actions) (uid : Option String)
      → granted_since after since as' uid ≡ granted_since before since as' uid
  unfolding granted_since
  granted_since-denied every none = rw denied
  granted_since-denied every (some u) = rw denied
  granted_since-denied (one a) uid = count_each-denied uid (a ∷ [])
  granted_since-denied (several a as') uid = count_each-denied uid (dedup [] (a ∷ as'))

  seen_uids-denied :
      (as' : List Action) (seen : List String)
      → seen_uids after since as' seen ≡ seen_uids before since as' seen
  seen_uids-denied [] seen = refl
  seen_uids-denied (a ∷ as') seen =
      rw denied (seen_uids-denied as' (update seen (uids_for_action before since a)))

  distinct_uids_since-denied :
      (a : Action) (as' : List Action)
      → distinct_uids_since after since a as' ≡ distinct_uids_since before since a as'
  unfolding distinct_uids_since
  distinct_uids_since-denied a as' = ap length (seen_uids-denied (dedup [] (a ∷ as')) [])

-- The row of an allowed request.
abbrev pub allowed_row : Clock → Request → Row
allowed_row c req = record {
  ts = c.record_now;
  uid = stored_uid req.uid;
  action = req.action;
  decision = allow;
  reason = none;
  fingerprint = req.verdict.fingerprint;
  measurement = req.verdict.measurement;
  attested = req.verdict.attested;
}

abbrev pub denied_row : Clock → Request → Refusal → Row
denied_row c req f = record {
  ts = c.record_now;
  uid = stored_uid req.uid;
  action = req.action;
  decision = deny;
  reason = some f.reason;
  fingerprint = req.verdict.fingerprint;
  measurement = req.verdict.measurement;
  attested = req.verdict.attested;
}

module _ (s : Switches) (l : Limits) (c : Clock) (req : Request) (db : Db) where
  -- How a call ended, and the log that it left.
  pub authorize_cases :
      ((decide s l c req db ≡ none)
        × ((authorize s l c req db).1 ≡ insert_row (allowed_row c req) db))
      ⊎ ((f : Refusal) × (decide s l c req db ≡ some f)
          × ((authorize s l c req db).1 ≡ insert_row (denied_row c req f) db))
  unfolding authorize record_decision
  authorize_cases = elim (Option-cases (decide s l c req db)) [
    | inl allowed ↦ inl (allowed, rw allowed)
    | inr (f, refused) ↦ inr (f, refused, rw refused)
  ]

  -- A call writes exactly one row: the caller's account and action, at the time of the write, an
  -- allowed one exactly when there is no refusal, and with the refusal's reason.
  pub authorize_writes_one_row :
      (r : Row) × ((authorize s l c req db).1.requests ≡ r ∷ db.requests)
      × (r.ts ≡ c.record_now)
      × (r.uid ≡ stored_uid req.uid)
      × (r.action ≡ req.action)
      × (is_allow r.decision ≡ not (is_some (authorize s l c req db).0))
      × (r.reason ≡ Option.map (λ (f : Refusal). f.reason) (authorize s l c req db).0)
  unfolding authorize record_decision
  authorize_writes_one_row = elim (Option-cases (decide s l c req db)) [
    | inl allowed ↦ rw allowed (_, refl, refl, refl, refl, refl, refl)
    | inr (f, refused) ↦ rw refused (_, refl, refl, refl, refl, refl, refl)
  ]

  -- A request passes exactly when the kill switch is off, the enclave is attested, the request has
  -- its shape, a wrap is the first of its account, and no ceiling is reached.
  pub authorize_allows_iff : ((authorize s l c req db).0 ≡ none) ↔ (
      (disabled_reason s ≡ none)
      × (req.verdict.ok ≡ true)
      × (req.precheck ≡ none)
      × (wrap_refusal req.uid req.action db ≡ none)
      × (rate_refusal l c req.uid req.action db ≡ none))
  unfolding authorize decide
  authorize_allows_iff = ground arith

  -- A refused request uses up nothing: every counter that a limit reads, and every grant, is as it
  -- was before the call.
  pub refused_consumes_nothing :
      (authorize s l c req db).0 ≢ none
      → (since : ℕ) (as' : Actions) (uid : Option String) (a : Action) (rest : List Action)
      → let after = (authorize s l c req db).1 in
        (granted_since after since as' uid ≡ granted_since db since as' uid)
        × (distinct_uids_since after since a rest ≡ distinct_uids_since db since a rest)
        × (ever_granted after uid a ≡ ever_granted db uid a)
  unfolding authorize record_decision ever_granted
  refused_consumes_nothing h since as' uid a rest = elim (Option-cases (decide s l c req db)) [
    | inl allowed ↦ absurd (h allowed)
    | inr (f, refused) ↦ rw refused (
      granted_since-denied (denied_row c req f) refl db.requests db.grants since as' uid,
      distinct_uids_since-denied (denied_row c req f) refl db.requests db.grants since a rest,
      refl,
    )
  ]
