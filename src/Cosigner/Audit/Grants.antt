-- ===== src/Cosigner/Audit/Grants.antt =====
-- The `grants` table of cosigner/audit.py against the log.
use email_summary.Prelude.{
  ℕ, String, ◌≡◌, refl, ap, ◌∙◌, Bool, true, ◌&&◌, ◌||◌, Option, some, List, [], ◌∷◌, str_eq,
  some_pass, arith, inl, inr, Bool-cases, eq_iff,
}
use email_summary.Cosigner.Reason.{Reason}
use email_summary.Cosigner.Audit.{
  Action, action_eq, Decision, allow, deny, is_allow, Row, Grant, Db, has_grant, insert_or_ignore,
  stored_uid, insert_row, record_decision, ever_granted, min_ts, backfill_from, backfill,
}
use email_summary.Cosigner.Audit.Counts.{action_eq→eq}

pub has_grant-insert_or_ignore :
    (uid : String) (action : Action) (g : Grant) (gs : List Grant)
    → has_grant uid action (insert_or_ignore g gs)
      ≡ (str_eq g.uid uid && action_eq g.action action || has_grant uid action gs)
has_grant-insert_or_ignore uid action g gs = elim (Bool-cases (has_grant g.uid g.action gs)) [
  | inl old ↦ rw old (ground (arith, eq_iff g.uid uid, action_eq→eq g.action action))
  | inr new ↦ rw new refl
]

-- After the grant of `r` is in, `r` and what was granted before are granted.
has_grant-insert_first :
    (uid : String) (action : Action) (r : Row) (ts : ℕ) (gs : List Grant)
    → ((str_eq r.uid uid && action_eq r.action action) || has_grant uid action gs) ≡ true
    → has_grant uid action
        (insert_or_ignore (record { uid = r.uid; action = r.action; first_granted_ts = ts }) gs)
      ≡ true
has_grant-insert_first uid action r ts gs h =
    has_grant-insert_or_ignore uid action
      (record { uid = r.uid; action = r.action; first_granted_ts = ts }) gs
    ∙ h

-- Some allowed row has this account and this action.
abbrev pub shows_grant : String → Action → List Row → Bool
shows_grant uid action =
    some_pass (λ r. is_allow r.decision && (str_eq r.uid uid && action_eq r.action action))

-- Every allowed row of the log has its grant.
pub record CoversLog (db : Db) : Type 0 where
  pub covered :
      (uid : String) (action : Action)
      → shows_grant uid action db.requests ≡ true
      → has_grant uid action db.grants ≡ true

-- Recording a request adds exactly the grant of an allowed one: what `ever_granted` answers for
-- every account and action, before and after.
pub ever_granted-record_decision :
    (uid : Option String) (action : Action) (decision : Decision) (reason : Option Reason)
    (fingerprint measurement : Option String) (attested : Bool) (at : ℕ) (db : Db) (u : String)
    (a : Action)
    → ever_granted
        (record_decision uid action decision reason fingerprint measurement attested at db)
        (some u)
        a
      ≡ (is_allow decision && (str_eq (stored_uid uid) u && action_eq action a)
          || ever_granted db (some u) a)
unfolding record_decision ever_granted
ever_granted-record_decision uid action allow reason fingerprint measurement attested at db u a =
    has_grant-insert_or_ignore u a
      (record { uid = stored_uid uid; action = action; first_granted_ts = at }) db.grants
ever_granted-record_decision uid action deny reason fingerprint measurement attested at db u a =
    refl

pub ever_granted-insert_row :
    (r : Row) (db : Db) (u : String) (a : Action)
    → ever_granted (insert_row r db) (some u) a ≡ (
        is_allow r.decision && (str_eq r.uid u && action_eq r.action a)
        || ever_granted db (some u) a)
unfolding insert_row ever_granted
ever_granted-insert_row r db u a = elim (Bool-cases (is_allow r.decision)) [
  | inl allowed ↦ rw allowed (
      has_grant-insert_or_ignore u a
        (record { uid = r.uid; action = r.action; first_granted_ts = r.ts }) db.grants)
  | inr denied ↦ rw denied refl
]

pub insert_row-CoversLog : (r : Row) (db : Db) → CoversLog db → CoversLog (insert_row r db)
unfolding insert_row
insert_row-CoversLog r db h = record {
  covered = λ uid action shown. elim (Bool-cases (is_allow r.decision)) [
    | inl allowed ↦
        rw allowed (
          has_grant-insert_first uid action r r.ts db.grants (ground (arith, h.covered uid action)))
    | inr denied ↦ rw denied (h.covered uid action (ground arith))
  ];
}

backfill_from_covers :
    (log rows : List Row) (gs : List Grant) (uid : String) (action : Action)
    → shows_grant uid action rows ≡ true
    → has_grant uid action (backfill_from log rows gs) ≡ true
backfill_from_covers log [] gs uid action h = ground arith
backfill_from_covers log (r ∷ rows) gs uid action h = elim (Bool-cases (is_allow r.decision)) [
  | inl allowed ↦ rw allowed (
      has_grant-insert_first uid action r (min_ts r.uid r.action r.ts log)
        (backfill_from log rows gs) (ground (arith, backfill_from_covers log rows gs uid action)))
  | inr denied ↦ rw denied (backfill_from_covers log rows gs uid action (ground arith))
]

-- After the backfill every allowed row of the log has its grant, whatever was there before.
pub backfill-CoversLog : (db : Db) → CoversLog (backfill db)
unfolding backfill
backfill-CoversLog db = record { covered = backfill_from_covers db.requests db.requests db.grants }

backfill_from_same :
    (log rows : List Row) (gs : List Grant)
    → ((uid : String) (action : Action)
        → shows_grant uid action rows ≡ true
        → has_grant uid action gs ≡ true)
    → backfill_from log rows gs ≡ gs
backfill_from_same log [] gs h = refl
backfill_from_same log (r ∷ rows) gs h =
    rw (backfill_from_same log rows gs (λ uid action shown. h uid action (ground arith)))
      (elim (Bool-cases (is_allow r.decision)) [
        | inl allowed ↦ rw allowed (
            rw (
              h r.uid r.action
                (ground (arith, eq_iff r.uid r.uid, action_eq→eq r.action r.action))))
        | inr denied ↦ rw denied
      ])

-- On a database whose grants cover its log, the backfill changes nothing.
pub backfill_same : (db : Db) → CoversLog db → backfill db ≡ db
unfolding backfill
backfill_same db h =
    ap (λ gs. record db { grants = gs })
      (backfill_from_same db.requests db.requests db.grants h.covered)
