-- ===== src/Cosigner/Service/Ceilings.antt =====
-- The hourly ceilings, over any hour of the log.
use email_summary.Prelude.{
  ℕ, ◌+◌, ◌-◌, ◌≤◌, ◌<◌, String, ◌≡◌, Bool, true, ◌&&◌, Option, none, some, List, [], ◌∷◌, arith,
  str_eq, leb, count, count-le, count-select_le, eq_iff, inl, inr, Bool-cases,
}
use email_summary.Cosigner.Audit.{
  Action, wrap, unwrap_and_sign, unwrap, sign_dpop, rewrap, action_eq, is_allow, Row, Db, since_all,
  since_action, stored_uid, insert_row, count_one, granted_since,
}
use email_summary.Cosigner.Audit.Counts.{action_eq→eq}
use email_summary.Cosigner.Policy.{
  Switches, Limits, Clock, Request, authorize, rate_refusal, unwrap_refusal, window_seconds,
  sweep_refusal,
}
use email_summary.Cosigner.Policy.Outcomes.{
  authorize_cases, authorize_allows_iff, allowed_row, denied_row,
}
use email_summary.Cosigner.Retention.{prune}
use email_summary.Cosigner.Service.{Step, ask, age, step, run, releases, AllOrdered}

-- The allowed rows of one hour, from `s` on, that pass a test.
abbrev pub in_hour : ℕ → (Row → Bool) → Row → Bool
in_hour s p r = is_allow r.decision && leb s r.ts && leb r.ts (s + window_seconds) && p r

abbrev pub hour_count : ℕ → (Row → Bool) → Db → ℕ
hour_count s p db = count (in_hour s p) db.requests

abbrev pub of_action : Action → Row → Bool
of_action a r = action_eq r.action a

abbrev pub of_account : String → Action → Row → Bool
of_account u a r = action_eq r.action a && str_eq r.uid u

-- No hour holds more than a limit.
abbrev pub Holds : (Row → Bool) → ℕ → Db → Type 0
Holds p limit db = (s : ℕ) → hour_count s p db ≤ limit

module _ (p : Row → Bool) (limit : ℕ) (db : Db) where
  -- A new row is in an hour only together with rows of the hour before the limiter's clock.
  Holds-insert_row :
      (r : Row) (now : ℕ)
      → now ≤ r.ts
      → (is_allow r.decision ≡ true
          → p r ≡ true
          → count (λ x. since_all (now - window_seconds) x && p x) db.requests < limit)
      → Holds p limit db
      → Holds p limit (insert_row r db)
  unfolding insert_row
  Holds-insert_row r now later room h s = elim (Bool-cases (in_hour s p r)) [
    | inl inside ↦ rw inside (
        omega (
          arith,
          room (ground arith) (ground arith),
          count-le (in_hour s p) (λ x. since_all (now - window_seconds) x && p x) db.requests
              (λ x e. ground arith),
        ))
    | inr outside ↦ rw outside (h s)
  ]

  Holds-prune : (now : ℕ) → Holds p limit db → Holds p limit (prune now db).1
  unfolding prune
  Holds-prune now h s = omega (arith, h s, count-select_le (in_hour s p) _ db.requests)

  Holds-authorize :
      (sw : Switches) (l : Limits) (c : Clock) (req : Request)
      → c.rate_now ≤ c.record_now
      → (rate_refusal l c req.uid req.action db ≡ none
          → p (allowed_row c req) ≡ true
          → count (λ x. since_all (c.rate_now - window_seconds) x && p x) db.requests < limit)
      → Holds p limit db
      → Holds p limit (authorize sw l c req db).1
  unfolding authorize
  Holds-authorize sw l c req later room h = elim (authorize_cases sw l c req db) [
    | inl (allowed, e) ↦ rw e (
        Holds-insert_row (allowed_row c req) c.rate_now later
          (λ _ passes. room ((authorize_allows_iff sw l c req db).0 allowed).4 passes) h)
    | inr (f, refused, e) ↦
        rw e (Holds-insert_row (denied_row c req f) 0 (omega arith) (λ q _. cc) h)
  ]

module _ (l : Limits) (c : Clock) (db : Db) where
  abbrev pub since : ℕ
  since = c.rate_now - window_seconds

  -- What a passed limiter says of its counters.
  pub unwrap_room :
      (uid : Option String) (a : Action)
      → releases a ≡ true
      → rate_refusal l c uid a db ≡ none
      → (count_one db since uid a < l.per_user)
        × (count (since_action since a) db.requests < l.total)
        × (sweep_refusal l c.sweep_now uid db ≡ none)
  unfolding rate_refusal unwrap_refusal granted_since
  unwrap_room uid wrap k h = cc
  unwrap_room uid sign_dpop k h = cc
  unwrap_room uid rewrap k h = cc
  unwrap_room uid unwrap_and_sign k h = ground arith
  unwrap_room uid unwrap k h = ground arith

  sign_room :
      (uid : Option String)
      → rate_refusal l c uid sign_dpop db ≡ none
      → count (since_action since sign_dpop) db.requests < l.sign
  unfolding rate_refusal granted_since
  sign_room uid h = ground arith

  rewrap_room :
      (uid : Option String)
      → rate_refusal l c uid rewrap db ≡ none
      → count (since_action since rewrap) db.requests < l.rewraps
  unfolding rate_refusal granted_since
  rewrap_room uid h = ground arith

  -- The rows of an account are among those that the per-user rule counts for its request.
  account_count-le :
      (uid : Option String) (u : String) (a : Action)
      → stored_uid uid ≡ u
      → count (λ x. since_all since x && of_account u a x) db.requests ≤ count_one db since uid a
  account_count-le none u a e = count-le _ _ db.requests (λ x h. ground arith)
  account_count-le (some v) u a e = count-le _ _ db.requests (λ x h. ground arith)

-- No hour of the log holds more allowed requests than the limits say.
pub record WithinCeilings (l : Limits) (db : Db) : Type 0 where
  pub account : (u : String) (a : Action) → releases a ≡ true → Holds (of_account u a) l.per_user db
  pub total : (a : Action) → releases a ≡ true → Holds (of_action a) l.total db
  pub sign : Holds (of_action sign_dpop) l.sign db
  pub rewraps : Holds (of_action rewrap) l.rewraps db

authorize-WithinCeilings :
    (sw : Switches) (l : Limits) (c : Clock) (req : Request) (db : Db)
    → c.rate_now ≤ c.record_now
    → WithinCeilings l db
    → WithinCeilings l (authorize sw l c req db).1
authorize-WithinCeilings sw l c req db later h = record {
  account = λ u a k.
      Holds-authorize (of_account u a) l.per_user db sw l c req later
        (λ passed is_mine.
          let same : req.action ≡ a = action_eq→eq req.action a (ground arith) in
          omega (
            arith,
            account_count-le l c db req.uid u a ((eq_iff (stored_uid req.uid) u).0 (ground arith)),
            (unwrap_room l c db req.uid a k (rw same at passed)).0,
          ))
        (h.account u a k);
  total = λ a k.
      Holds-authorize (of_action a) l.total db sw l c req later
        (λ passed is_mine.
          (unwrap_room l c db req.uid a k (rw (action_eq→eq req.action a is_mine) at passed)).1)
        (h.total a k);
  sign =
      Holds-authorize (of_action sign_dpop) l.sign db sw l c req later
        (λ passed is_mine.
          sign_room l c db req.uid (rw (action_eq→eq req.action sign_dpop is_mine) at passed))
        h.sign;
  rewraps =
      Holds-authorize (of_action rewrap) l.rewraps db sw l c req later
        (λ passed is_mine.
          rewrap_room l c db req.uid (rw (action_eq→eq req.action rewrap is_mine) at passed))
        h.rewraps;
}

prune-WithinCeilings :
    (l : Limits) (now : ℕ) (db : Db) → WithinCeilings l db → WithinCeilings l (prune now db).1
prune-WithinCeilings l now db h = record {
  account = λ u a k. Holds-prune (of_account u a) l.per_user db now (h.account u a k);
  total = λ a k. Holds-prune (of_action a) l.total db now (h.total a k);
  sign = Holds-prune (of_action sign_dpop) l.sign db now h.sign;
  rewraps = Holds-prune (of_action rewrap) l.rewraps db now h.rewraps;
}

-- In any life of the co-signer that starts within the ceilings, with prunes in between, and whose
-- clock does not run backwards inside a call, no hour of the log ever holds more than the limits
-- allow: for each account and each of the two unwrap actions, for each of those two actions over
-- all accounts, for bare signatures, and for rewraps.
pub run-WithinCeilings :
    (l : Limits) (steps : List Step) (db : Db)
    → AllOrdered steps
    → WithinCeilings l db
    → WithinCeilings l (run l steps db)
unfolding run step
run-WithinCeilings l [] db o h = h
run-WithinCeilings l (ask sw c req ∷ steps) db o h =
    run-WithinCeilings l steps (authorize sw l c req db).1 o.1
      (authorize-WithinCeilings sw l c req db (omega arith) h)
run-WithinCeilings l (age now ∷ steps) db o h =
    run-WithinCeilings l steps (prune now db).1 o (prune-WithinCeilings l now db h)
