-- ===== src/Cosigner/Retention/Invisible.antt =====
-- What a prune may not change: the answers of cosigner/policy.py.
use email_summary.Prelude.{
  ℕ, ◌+◌, ◌-◌, ◌≤◌, String, ◌≡◌, refl, ap, Bool, true, ◌&&◌, Option, none, some, List, [], ◌∷◌,
  arith, count, count-select, select, select-select, length, str_eq,
}
use email_summary.Prelude.Sets.{update}
use email_summary.Cosigner.Audit.{
  Action, wrap, unwrap_and_sign, unwrap, sign_dpop, rewrap, Row, Db, Actions, every, one, several,
  dedup, since_all, since_action, count_each, uids_for_action, seen_uids, granted_since,
  distinct_uids_since, ever_granted,
}
use email_summary.Cosigner.Policy.{
  Switches, Limits, Clock, Request, wrap_once_refusal, wrap_refusal, sweep_refusal, unwrap_refusal,
  rate_refusal, decide, longest_window, window_seconds, distinct_window_seconds,
}
use email_summary.Cosigner.Retention.{allow_retention_seconds, deny_retention_seconds, kept, prune}

-- A prune at `now` does not reach back to `since`.
module _ (now since : ℕ) (recent : now ≤ since + allow_retention_seconds) (db : Db) where
  abbrev after : Db
  after = (prune now db).1

  abbrev keeps : Row → Bool
  keeps = kept (now - allow_retention_seconds) (now - deny_retention_seconds)

  since_all-kept : (r : Row) → since_all since r ≡ true → keeps r ≡ true
  since_all-kept r h = ground arith

  -- Any count of allowed rows of the window is as it was, and so is any column of them.
  count-prune :
      (p : Row → Bool)
      → ((r : Row) → p r ≡ true → since_all since r ≡ true)
      → count p after.requests ≡ count p db.requests
  unfolding prune
  count-prune p h = count-select p keeps db.requests (λ r e. since_all-kept r (h r e))

  select-prune :
      (p : Row → Bool)
      → ((r : Row) → p r ≡ true → since_all since r ≡ true)
      → select p after.requests ≡ select p db.requests
  unfolding prune
  select-prune p h = select-select p keeps db.requests (λ r e. since_all-kept r (h r e))

  count_each-prune :
      (uid : Option String) (as' : List Action)
      → count_each after since uid as' ≡ count_each db since uid as'
  count_each-prune uid [] = refl
  count_each-prune none (a ∷ as') =
      cc (count_each-prune none as', count-prune (since_action since a) (λ r e. ground arith))
  count_each-prune (some u) (a ∷ as') = cc (
    count_each-prune (some u) as',
    count-prune (λ r. since_action since a r && str_eq r.uid u) (λ r e. ground arith),
  )

  pub granted_since-prune :
      (as' : Actions) (uid : Option String)
      → granted_since after since as' uid ≡ granted_since db since as' uid
  unfolding granted_since
  granted_since-prune every none = count-prune (since_all since) (λ r e. e)
  granted_since-prune every (some u) =
      count-prune (λ r. since_all since r && str_eq r.uid u) (λ r e. ground arith)
  granted_since-prune (one a) uid = count_each-prune uid (a ∷ [])
  granted_since-prune (several a as') uid = count_each-prune uid (dedup [] (a ∷ as'))

  seen_uids-prune :
      (as' : List Action) (seen : List String)
      → seen_uids after since as' seen ≡ seen_uids db since as' seen
  seen_uids-prune [] seen = refl
  seen_uids-prune (a ∷ as') seen =
      rw (select-prune (since_action since a) (λ r e. ground arith))
        (seen_uids-prune as' (update seen (uids_for_action db since a)))

  pub distinct_uids_since-prune :
      (a : Action) (as' : List Action)
      → distinct_uids_since after since a as' ≡ distinct_uids_since db since a as'
  unfolding distinct_uids_since
  distinct_uids_since-prune a as' = ap length (seen_uids-prune (dedup [] (a ∷ as')) [])

module _ (now : ℕ) (l : Limits) (c : Clock)
    (rate : now + longest_window ≤ c.rate_now + allow_retention_seconds)
    (sweep : now + longest_window ≤ c.sweep_now + allow_retention_seconds) (uid : Option String)
    (db : Db) where
  sweep_refusal-prune :
      sweep_refusal l c.sweep_now uid (prune now db).1 ≡ sweep_refusal l c.sweep_now uid db
  unfolding sweep_refusal
  sweep_refusal-prune =
      let recent : now ≤ (c.sweep_now - distinct_window_seconds) + allow_retention_seconds =
        omega arith in
      rw (
        granted_since-prune now (c.sweep_now - distinct_window_seconds) recent db
            (several unwrap_and_sign (unwrap ∷ [])) uid,
        distinct_uids_since-prune now (c.sweep_now - distinct_window_seconds) recent db
            unwrap_and_sign (unwrap ∷ []),
      )

  granted_hour-prune :
      (a : Action) (who : Option String)
      → granted_since (prune now db).1 (c.rate_now - window_seconds) (one a) who
        ≡ granted_since db (c.rate_now - window_seconds) (one a) who
  granted_hour-prune a who =
      granted_since-prune now (c.rate_now - window_seconds) (omega arith) db (one a) who

  rate_refusal-prune :
      (a : Action) → rate_refusal l c uid a (prune now db).1 ≡ rate_refusal l c uid a db
  unfolding rate_refusal unwrap_refusal
  rate_refusal-prune wrap = refl
  rate_refusal-prune sign_dpop = rw (granted_hour-prune sign_dpop none)
  rate_refusal-prune rewrap = rw (granted_hour-prune rewrap none)
  rate_refusal-prune unwrap_and_sign = cc (
    granted_hour-prune unwrap_and_sign uid,
    granted_hour-prune unwrap_and_sign none,
    sweep_refusal-prune,
  )
  rate_refusal-prune unwrap =
      cc (granted_hour-prune unwrap uid, granted_hour-prune unwrap none, sweep_refusal-prune)

pub ever_granted-prune :
    (now : ℕ) (db : Db) (uid : Option String) (a : Action)
    → ever_granted (prune now db).1 uid a ≡ ever_granted db uid a
unfolding prune ever_granted
ever_granted-prune now db none a = refl
ever_granted-prune now db (some u) a = refl

wrap_refusal-prune :
    (now : ℕ) (db : Db) (uid : Option String) (a : Action)
    → wrap_refusal uid a (prune now db).1 ≡ wrap_refusal uid a db
unfolding wrap_once_refusal
wrap_refusal-prune now db uid wrap = cc (ever_granted-prune now db uid wrap)
wrap_refusal-prune now db uid _ = refl

-- A prune changes no decision: every request, of any account and for any action, is answered after
-- it as it would have been before, if the prune's clock is not more than 29 days and 23 hours ahead
-- of the clock that the request is decided by.
pub decide-prune :
    (now : ℕ) (s : Switches) (l : Limits) (c : Clock) (req : Request) (db : Db)
    → now + longest_window ≤ c.rate_now + allow_retention_seconds
    → now + longest_window ≤ c.sweep_now + allow_retention_seconds
    → decide s l c req (prune now db).1 ≡ decide s l c req db
unfolding decide
decide-prune now s l c req db rate sweep = cc (
  wrap_refusal-prune now db req.uid req.action,
  rate_refusal-prune now l c rate sweep req.uid db req.action,
)
