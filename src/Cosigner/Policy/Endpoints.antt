-- ===== src/Cosigner/Policy/Endpoints.antt =====
-- The two actions that release key material, against the ceilings of `_rate_refusal`.
use email_summary.Prelude.{
  ℕ, ◌-◌, ◌≤◌, ◌<◌, String, ◌≡◌, refl, Bool, Option, none, some, List, [], ◌∷◌, ◌++◌, arith, count,
}
use email_summary.Cosigner.Audit.{
  unwrap_and_sign, unwrap, Row, Db, several, count_one, granted_since,
}
use email_summary.Cosigner.Audit.Counts.{granted_since-eq-in_clause, in_clause}
use email_summary.Cosigner.Policy.{
  Limits, Clock, sweep_refusal, unwrap_refusal, rate_refusal, distinct_window_seconds,
}

abbrev pub AllUnwrapAndSign : List Row → Type 0
AllUnwrapAndSign [] = Unit
AllUnwrapAndSign (r ∷ rs) = (r.action ≡ unwrap_and_sign) × AllUnwrapAndSign rs

abbrev pub with_more : List Row → Db → Db
with_more extra db = record db { requests = extra ++ db.requests }

count-append_le : (p : Row → Bool) (extra rows : List Row) → count p rows ≤ count p (extra ++ rows)
count-append_le p [] rows = omega arith
count-append_le p (r ∷ extra) rows = ground (arith, count-append_le p extra rows)

-- Rows of the other endpoint are not counted for `unwrap`.
count_one-other :
    (extra : List Row) (db : Db) (since : ℕ) (uid : Option String)
    → AllUnwrapAndSign extra
    → count_one (with_more extra db) since uid unwrap ≡ count_one db since uid unwrap
count_one-other [] db since none h = refl
count_one-other [] db since (some u) h = refl
count_one-other (r ∷ extra) db since none h =
    ground (arith, count_one-other extra db since none h.1)
count_one-other (r ∷ extra) db since (some u) h =
    ground (arith, count_one-other extra db since (some u) h.1)

abbrev swept : Clock → Option String → Db → ℕ
swept c uid db =
    granted_since db (c.sweep_now - distinct_window_seconds) (several unwrap_and_sign (unwrap ∷ []))
      uid

sweep_refusal-counted :
    (l : Limits) (c : Clock) (uid : Option String) (db : Db)
    → 0 < swept c uid db
    → sweep_refusal l c.sweep_now uid db ≡ none
unfolding sweep_refusal
sweep_refusal-counted l c uid db h = ground arith

swept-with_more :
    (extra : List Row) (c : Clock) (uid : Option String) (db : Db)
    → swept c uid db ≤ swept c uid (with_more extra db)
swept-with_more extra c uid db = omega (
  arith,
  granted_since-eq-in_clause db (c.sweep_now - distinct_window_seconds) uid unwrap_and_sign
      (unwrap ∷ []),
  granted_since-eq-in_clause (with_more extra db) (c.sweep_now - distinct_window_seconds) uid
      unwrap_and_sign (unwrap ∷ []),
  count-append_le
      (in_clause (c.sweep_now - distinct_window_seconds) uid (unwrap_and_sign ∷ unwrap ∷ [])) extra
      db.requests,
)

-- For an account that the sweep rule has already counted, the answer to `unwrap` does not depend on
-- how many `unwrap-and-sign` requests the log holds: the per-user and the aggregate ceilings are
-- counted for each of the two endpoints apart.
pub unwrap_ignores_unwrap_and_sign :
    (extra : List Row) (l : Limits) (c : Clock) (uid : Option String) (db : Db)
    → AllUnwrapAndSign extra
    → 0 < swept c uid db
    → rate_refusal l c uid unwrap (with_more extra db) ≡ rate_refusal l c uid unwrap db
unfolding rate_refusal unwrap_refusal granted_since
unwrap_ignores_unwrap_and_sign extra l c uid db others counted =
    rw
      (
        sweep_refusal-counted l c uid db counted,
        sweep_refusal-counted l c uid (with_more extra db)
            (omega (arith, swept-with_more extra c uid db)),
      )
      (ground (
        arith,
        count_one-other extra db (c.rate_now - 3600) uid others,
        count_one-other extra db (c.rate_now - 3600) none others,
      ))
