-- ===== src/Cosigner/Service/Covers.antt =====
-- The grants cover the log through a life of the co-signer.
use email_summary.Prelude.{List, [], ◌∷◌, inl, inr}
use email_summary.Cosigner.Audit.{Db, backfill}
use email_summary.Cosigner.Audit.Grants.{CoversLog, insert_row-CoversLog, backfill-CoversLog}
use email_summary.Cosigner.Policy.{Limits}
use email_summary.Cosigner.Policy.Outcomes.{authorize_cases, allowed_row, denied_row}
use email_summary.Cosigner.Retention.Deletes.{prune-CoversLog}
use email_summary.Cosigner.Service.{Step, ask, age, step, run}

step-CoversLog : (l : Limits) (st : Step) (db : Db) → CoversLog db → CoversLog (step l st db)
unfolding step
step-CoversLog l (ask s c req) db h = elim (authorize_cases s l c req db) [
  | inl (allowed, e) ↦ rw e (insert_row-CoversLog (allowed_row c req) db h)
  | inr (f, refused, e) ↦ rw e (insert_row-CoversLog (denied_row c req f) db h)
]
step-CoversLog l (age now) db h = prune-CoversLog now db h

run_keeps : (l : Limits) (steps : List Step) (db : Db) → CoversLog db → CoversLog (run l steps db)
unfolding run
run_keeps l [] db h = h
run_keeps l (st ∷ steps) db h = run_keeps l steps (step l st db) (step-CoversLog l st db h)

pub run-CoversLog :
    (l : Limits) (steps : List Step) (db : Db) → CoversLog (run l steps (backfill db))
run-CoversLog l steps db = run_keeps l steps (backfill db) (backfill-CoversLog db)
