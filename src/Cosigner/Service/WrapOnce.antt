-- ===== src/Cosigner/Service/WrapOnce.antt =====
-- `/wrap` is refused the second time.
use email_summary.Prelude.{
  ◌≤◌, String, ◌≡◌, refl, ◌∙◌, true, false, ◌&&◌, Option, none, some, List, [], ◌∷◌, arith, str_eq,
  inl, inr, eq_iff,
}
use email_summary.Cosigner.Audit.{Action, wrap, action_eq, Db, stored_uid, ever_granted}
use email_summary.Cosigner.Audit.Grants.{ever_granted-insert_row}
use email_summary.Cosigner.Policy.{
  Switches, Limits, Clock, Request, authorize, wrap_refusal, wrap_once_refusal,
}
use email_summary.Cosigner.Policy.Outcomes.{
  authorize_cases, authorize_allows_iff, allowed_row, denied_row,
}
use email_summary.Cosigner.Retention.Invisible.{ever_granted-prune}
use email_summary.Cosigner.Service.{Step, ask, age, step, wraps_now, wraps, named}

-- What the wrap-once rule tells of a request that passes it.
wrap_free :
    (uid : Option String) (a : Action) (db : Db) (u : String)
    → wrap_refusal uid a db ≡ none
    → named u uid ≡ true
    → action_eq a wrap ≡ true
    → (ever_granted db (some u) wrap ≡ false)
      × ((str_eq (stored_uid uid) u && action_eq a wrap) ≡ true)
unfolding wrap_once_refusal
wrap_free none a db u free n w = cc
wrap_free (some v) wrap db u free n w = ground (arith, eq_iff v u)
wrap_free (some v) _ db u free n w = cc

-- A call keeps the grants and adds the one of an allowed request.
module _ (s : Switches) (l : Limits) (c : Clock) (req : Request) (db : Db) (u : String) where
  granted-authorize :
      ever_granted db (some u) wrap ≡ true
      → ever_granted (authorize s l c req db).1 (some u) wrap ≡ true
  granted-authorize h = elim (authorize_cases s l c req db) [
    | inl (allowed, e) ↦
        rw e (ground (arith, ever_granted-insert_row (allowed_row c req) db u wrap))
    | inr (f, refused, e) ↦
        rw e (ground (arith, ever_granted-insert_row (denied_row c req f) db u wrap))
  ]

  -- An allowed wrap finds no grant, and leaves one.
  wrap_granted :
      wraps_now u l (ask s c req) db ≡ true
      → (ever_granted db (some u) wrap ≡ false)
        × (ever_granted (authorize s l c req db).1 (some u) wrap ≡ true)
  unfolding wraps_now authorize
  wrap_granted h = elim (authorize_cases s l c req db) [
    | inl (allowed, e) ↦
        let free =
          wrap_free req.uid req.action db u ((authorize_allows_iff s l c req db).0 allowed).3
            (ground arith) (ground arith) in
        rw e (free.0, ground (arith, ever_granted-insert_row (allowed_row c req) db u wrap))
    | inr (f, refused, e) ↦ absurd (ground arith)
  ]

module _ (u : String) (l : Limits) where
  granted-step :
      (st : Step) (db : Db)
      → ever_granted db (some u) wrap ≡ true
      → ever_granted (step l st db) (some u) wrap ≡ true
  unfolding step
  granted-step (ask s c req) db h = granted-authorize s l c req db u h
  granted-step (age now) db h = ever_granted-prune now db (some u) wrap ∙ h

  wraps_now-granted :
      (st : Step) (db : Db)
      → wraps_now u l st db ≡ true
      → (ever_granted db (some u) wrap ≡ false) × (ever_granted (step l st db) (some u) wrap ≡ true)
  unfolding step wraps_now
  wraps_now-granted (ask s c req) db h = wrap_granted s l c req db u h
  wraps_now-granted (age now) db h = cc

  none_after_granted :
      (steps : List Step) (db : Db) → ever_granted db (some u) wrap ≡ true → wraps u l steps db ≡ 0
  unfolding wraps
  none_after_granted [] db h = refl
  none_after_granted (st ∷ steps) db h = ground (
    arith,
    wraps_now-granted st db,
    none_after_granted steps (step l st db) (granted-step st db h),
  )

-- In any life of the co-signer, with prunes in between and from any database, at most one wrap is
-- allowed for an account.
pub wrap_once : (u : String) (l : Limits) (steps : List Step) (db : Db) → wraps u l steps db ≤ 1
unfolding wraps
wrap_once u l [] db = omega arith
wrap_once u l (st ∷ steps) db = ground (
  arith,
  wraps_now-granted u l st db,
  none_after_granted u l steps (step l st db),
  wrap_once u l steps (step l st db),
)
