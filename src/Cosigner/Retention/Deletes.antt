-- ===== src/Cosigner/Retention/Deletes.antt =====
-- Which rows cosigner/retention.py deletes.
use email_summary.Prelude.{
  ℕ, ◌+◌, ◌-◌, ◌≤◌, ◌≡◌, true, false, List, [], ◌∷◌, arith, count, select, length, All, All-select,
  some_pass-select,
}
use email_summary.Cosigner.Audit.{is_allow, Row, Db}
use email_summary.Cosigner.Audit.Grants.{CoversLog}
use email_summary.Cosigner.Retention.{
  allow_retention_seconds, deny_retention_seconds, kept, aged_allow, aged_deny, prune,
}

-- Young enough for its decision.
pub record IsRetained (now : ℕ) (r : Row) : Type 0 where
  pub allowed : is_allow r.decision ≡ true → now ≤ r.ts + allow_retention_seconds
  pub denied : is_allow r.decision ≡ false → now ≤ r.ts + deny_retention_seconds

length-kept :
    (a d : ℕ) (rows : List Row)
    → length (select (kept a d) rows) + count (aged_allow a) rows + count (aged_deny d) rows
      ≡ length rows
length-kept a d [] = omega arith
length-kept a d (r ∷ rows) = ground (arith, length-kept a d rows)

kept-IsRetained :
    (now : ℕ) (r : Row)
    → kept (now - allow_retention_seconds) (now - deny_retention_seconds) r ≡ true
    → IsRetained now r
kept-IsRetained now r h = record { allowed = λ e. ground arith; denied = λ e. ground arith }

-- The two numbers that a prune returns and the rows that it leaves make up the log, and every row
-- that is left is young enough: an allowed one at most 30 days old, a denied one at most 365.
pub prune_deletes :
    (now : ℕ) (db : Db)
    → (length (prune now db).1.requests + (prune now db).0.0 + (prune now db).0.1
        ≡ length db.requests)
      × All (IsRetained now) (prune now db).1.requests
unfolding prune
prune_deletes now db = (
  length-kept (now - allow_retention_seconds) (now - deny_retention_seconds) db.requests,
  All-select (IsRetained now) (kept (now - allow_retention_seconds) (now - deny_retention_seconds))
      db.requests (kept-IsRetained now),
)

pub prune-CoversLog : (now : ℕ) (db : Db) → CoversLog db → CoversLog (prune now db).1
unfolding prune
prune-CoversLog now db h = record {
  covered = λ uid action shown. h.covered uid action (some_pass-select _ _ db.requests shown);
}
