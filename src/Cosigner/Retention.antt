-- ===== src/Cosigner/Retention.antt =====
-- cosigner/retention.py: the deletion of aged log rows. Times are whole seconds.
pub mod Invisible
pub mod Deletes
use email_summary.Prelude.{ℕ, ◌-◌, ◌*◌, Bool, not, ◌&&◌, select, count, ltb}
use email_summary.Cosigner.Audit.{Row, Db, is_allow}

abbrev pub day : ℕ
day = 86400

abbrev pub allow_retention_seconds : ℕ
allow_retention_seconds = 30 * day

abbrev pub deny_retention_seconds : ℕ
deny_retention_seconds = 365 * day

-- `cutoffs`: the two ages, from now.
unfoldable pub cutoffs : ℕ → ℕ × ℕ
cutoffs now = (now - allow_retention_seconds, now - deny_retention_seconds)

abbrev pub aged_allow : ℕ → Row → Bool
aged_allow cutoff r = is_allow r.decision && ltb r.ts cutoff

abbrev pub aged_deny : ℕ → Row → Bool
aged_deny cutoff r = not (is_allow r.decision) && ltb r.ts cutoff

abbrev pub kept : ℕ → ℕ → Row → Bool
kept allow_cutoff deny_cutoff r = not (aged_allow allow_cutoff r) && not (aged_deny deny_cutoff r)

-- `prune`: the two DELETE statements in one transaction, with the rows that each deleted.
unfoldable pub prune : ℕ → Db → (ℕ × ℕ) × Db
unfolding cutoffs
prune now db =
    let (allow_cutoff, deny_cutoff) = cutoffs now in
    (
      (count (aged_allow allow_cutoff) db.requests, count (aged_deny deny_cutoff) db.requests),
      record db { requests = select (kept allow_cutoff deny_cutoff) db.requests },
    )
