-- ===== src/Cosigner/Service/Sweep/Steps.antt =====
-- The sweep ceiling, over any quarter of an hour of the log.
use email_summary.Prelude.{
  ℕ, ◌+◌, ◌≤◌, ◌<◌, String, ◌≡◌, sym, ◌∙◌, true, ◌&&◌, none, some, List, [], ◌∷◌, arith, str_eq,
  inl, inr, Bool-cases, length, All-mono, All-select_keeps, Option-cases, some_pass-select, eq_iff,
}
use email_summary.Prelude.Sets.{
  is_member, add, member-add, add-HasNoRepeats, length-add, length-le_of_subset,
}
use email_summary.Cosigner.Audit.{
  is_allow, unwrap_and_sign, unwrap, Row, Db, stored_uid, insert_row, granted_since, several,
}
use email_summary.Cosigner.Audit.Distinct.{length-counted_uids, counted_uids-HasNoRepeats}
use email_summary.Cosigner.Policy.{
  Switches, Limits, Clock, Request, authorize, rate_refusal, sweep_refusal, distinct_window_seconds,
}
use email_summary.Cosigner.Policy.Outcomes.{
  authorize_cases, authorize_allows_iff, allowed_row, denied_row,
}
use email_summary.Cosigner.Retention.{prune}
use email_summary.Cosigner.Service.{
  Step, ask, age, step, run, releases, IsOrdered, NamesAccount, IsMonotone,
}
use email_summary.Cosigner.Service.Ceilings.{unwrap_room}
use email_summary.Cosigner.Service.Sweep.{
  in_quarter, quarter_uids, SweepHolds, AllBefore, member-quarter_uids, quarter_uids-HasNoRepeats,
  counted, since, sweep_passes, counted_of_granted, quarter-subset-counted, counted-subset-quarter,
}

module _ (l : Limits) (now : ℕ) (db : Db) (past : AllBefore now db) (h : SweepHolds l db) where
  length-counted : length (counted l now db) ≤ l.distinct
  length-counted = omega (
    arith,
    length-le_of_subset (counted l now db) (quarter_uids (since l now db) db.requests)
        (counted_uids-HasNoRepeats db (since l now db) unwrap_and_sign (unwrap ∷ []))
        (λ u m. counted-subset-quarter l now db u past m),
    h (since l now db),
  )

  added-counted :
      (s : ℕ) (u : String)
      → now ≤ s + distinct_window_seconds
      → 0 < granted_since db (since l now db) (several unwrap_and_sign (unwrap ∷ [])) (some u)
      → (v : String) → is_member v (add u (quarter_uids s db.requests)) ≡ true
      → is_member v (counted l now db) ≡ true
  added-counted s u late granted v m = elim (Bool-cases (str_eq v u)) [
    | inl same ↦ rw ((eq_iff v u).0 same) (counted_of_granted l now db u granted)
    | inr other ↦
        quarter-subset-counted l now db s v late
          (ground (arith, member-add v u (quarter_uids s db.requests)))
  ]

  -- One more account fits, if the rule passed for it.
  add_fits :
      (s : ℕ) (u : String)
      → now ≤ s + distinct_window_seconds
      → sweep_refusal l now (some u) db ≡ none
      → length (add u (quarter_uids s db.requests)) ≤ l.distinct
  add_fits s u late passed = elim (sweep_passes l now db (some u) passed) [
    | inl granted ↦ omega (
      arith,
      length-counted,
      length-le_of_subset (add u (quarter_uids s db.requests)) (counted l now db)
          (add-HasNoRepeats u (quarter_uids s db.requests)
            (quarter_uids-HasNoRepeats s db.requests))
          (added-counted s u late granted),
    )
    | inr room ↦ omega (
      arith,
      length-add u (quarter_uids s db.requests),
      length-counted_uids db (since l now db) unwrap_and_sign (unwrap ∷ []),
      length-le_of_subset (quarter_uids s db.requests) (counted l now db)
          (quarter_uids-HasNoRepeats s db.requests)
          (λ v m. quarter-subset-counted l now db s v late m),
    )
  ]

  insert_row-SweepHolds :
      (r : Row)
      → now ≤ r.ts
      → (is_allow r.decision ≡ true
          → releases r.action ≡ true
          → sweep_refusal l now (some r.uid) db ≡ none)
      → SweepHolds l (insert_row r db)
  unfolding insert_row
  insert_row-SweepHolds r later passed s = elim (Bool-cases (in_quarter s r)) [
    | inl inside ↦
        rw inside (add_fits s r.uid (ground arith) (passed (ground arith) (ground arith)))
    | inr outside ↦ rw outside (h s)
  ]

-- No quarter of an hour holds more accounts than the limit, and no row is newer than the clock.
pub record SweepOk (l : Limits) (t : ℕ) (db : Db) : Type 0 where
  pub bounded : SweepHolds l db
  pub past : AllBefore t db

SweepOk-later : (l : Limits) (t now : ℕ) (db : Db) → t ≤ now → SweepOk l t db → AllBefore now db
SweepOk-later l t now db le h =
    All-mono (λ r. r.ts ≤ t) (λ r. r.ts ≤ now) db.requests (λ r e. omega arith) h.past

-- A request that names its account and passes the limiter has passed the sweep rule.
sweep_passed :
    (l : Limits) (c : Clock) (req : Request) (db : Db)
    → NamesAccount req
    → rate_refusal l c req.uid req.action db ≡ none
    → releases req.action ≡ true
    → sweep_refusal l c.sweep_now (some (stored_uid req.uid)) db ≡ none
sweep_passed l c req db named passed k = elim (Option-cases req.uid) [
  | inl nobody ↦ absurd (named k nobody)
  | inr (u, e) ↦ rw e (rw e at (unwrap_room l c db req.uid req.action k passed).2)
]

authorize-SweepOk :
    (sw : Switches) (l : Limits) (t : ℕ) (c : Clock) (req : Request) (db : Db)
    → t ≤ c.rate_now
    → IsOrdered c
    → NamesAccount req
    → SweepOk l t db
    → SweepOk l c.record_now (authorize sw l c req db).1
unfolding authorize
authorize-SweepOk sw l t c req db later o named h =
    let past : AllBefore c.sweep_now db = SweepOk-later l t c.sweep_now db (omega arith) h in
    elim (authorize_cases sw l c req db) [
      | inl (allowed, e) ↦ rw e (record {
        bounded =
            insert_row-SweepHolds l c.sweep_now db past h.bounded (allowed_row c req) o.1 (λ _ k.
              sweep_passed l c req db named ((authorize_allows_iff sw l c req db).0 allowed).4 k);
        past =
            unfold insert_row in (omega arith, SweepOk-later l t c.record_now db (omega arith) h);
      })
      | inr (f, refused, e) ↦ rw e (record {
        bounded =
            insert_row-SweepHolds l c.sweep_now db past h.bounded (denied_row c req f) o.1
              (λ q _. cc);
        past =
            unfold insert_row in (omega arith, SweepOk-later l t c.record_now db (omega arith) h);
      })
    ]

prune-SweepOk : (l : Limits) (t now : ℕ) (db : Db) → SweepOk l t db → SweepOk l t (prune now db).1
unfolding prune
prune-SweepOk l t now db h = record {
  bounded = λ s. omega (
    arith,
    h.bounded s,
    length-le_of_subset (quarter_uids s (prune now db).1.requests) (quarter_uids s db.requests)
        (quarter_uids-HasNoRepeats s (prune now db).1.requests)
        (λ u m.
          member-quarter_uids s u db.requests
          ∙ some_pass-select (λ r. in_quarter s r && str_eq u r.uid) _ db.requests
              (sym (member-quarter_uids s u (prune now db).1.requests) ∙ m)),
  );
  past = All-select_keeps (λ r. r.ts ≤ t) _ db.requests h.past;
}

-- From a log that is within the sweep limit and has no row newer than the start, in any life of the
-- co-signer whose clock never runs backwards and whose requests for key material name their account,
-- with prunes in between: no quarter of an hour of the log holds grants of key material for more
-- accounts than the sweep limit, over both unwrap actions together.
pub run-SweepHolds :
    (l : Limits) (steps : List Step) (t : ℕ) (db : Db)
    → IsMonotone t steps
    → SweepOk l t db
    → SweepHolds l (run l steps db)
unfolding run step
run-SweepHolds l [] t db m h = h.bounded
run-SweepHolds l (ask sw c req ∷ steps) t db m h =
    run-SweepHolds l steps c.record_now (authorize sw l c req db).1 m.3
      (authorize-SweepOk sw l t c req db m.0 m.1 m.2 h)
run-SweepHolds l (age now ∷ steps) t db m h =
    run-SweepHolds l steps t (prune now db).1 m (prune-SweepOk l t now db h)
