-- ===== src/Cosigner/Audit/Distinct.antt =====
-- What `distinct_uids_since` of cosigner/audit.py counts.
use email_summary.Prelude.{
  ℕ, String, ◌≡◌, refl, ◌∙◌, Bool, true, not, ◌&&◌, ◌||◌, none, List, [], ◌∷◌, map, str_eq, select,
  some_pass, some_pass-congr, some_pass-or, some_pass-false, length, arith,
}
use email_summary.Prelude.Sets.{is_member, update, HasNoRepeats, update-HasNoRepeats, member-update}
use email_summary.Cosigner.Audit.{
  Action, action_eq, Row, Db, since_action, has_action, dedup, uids_for_action, seen_uids,
  distinct_uids_since,
}
use email_summary.Cosigner.Audit.Counts.{action_eq→eq, in_clause}

-- A row of the `IN` clause that names this account.
abbrev pub names_uid : ℕ → List Action → String → Row → Bool
names_uid since as' u r = in_clause since none as' r && str_eq u r.uid

abbrev one_uid : ℕ → Action → String → Row → Bool
one_uid since a u r = since_action since a r && str_eq u r.uid

pub member-select :
    (p : Row → Bool) (u : String) (rows : List Row)
    → is_member u (map (λ r. r.uid) (select p rows)) ≡ some_pass (λ r. p r && str_eq u r.uid) rows
member-select p u [] = refl
member-select p u (r ∷ rows) = ground (arith, member-select p u rows)

module _ (db : Db) (since : ℕ) (u : String) where
  member-seen_uids :
      (as' : List Action) (seen : List String)
      → is_member u (seen_uids db since as' seen)
        ≡ (is_member u seen || some_pass (names_uid since as' u) db.requests)
  member-seen_uids [] seen =
      ground (arith, some_pass-false (names_uid since [] u) db.requests (λ r. ground arith))
  member-seen_uids (a ∷ as') seen = ground (
    arith,
    member-seen_uids as' (update seen (uids_for_action db since a)),
    member-update u seen (uids_for_action db since a),
    member-select (since_action since a) u db.requests,
    some_pass-or (one_uid since a u) (names_uid since as' u) db.requests,
    some_pass-congr (λ r. one_uid since a u r || names_uid since as' u r)
        (names_uid since (a ∷ as') u) db.requests (λ r. ground arith),
  )

seen_uids-HasNoRepeats :
    (db : Db) (since : ℕ) (as' : List Action) (seen : List String)
    → HasNoRepeats seen
    → HasNoRepeats (seen_uids db since as' seen)
seen_uids-HasNoRepeats db since [] seen h = h
seen_uids-HasNoRepeats db since (a ∷ as') seen h =
    seen_uids-HasNoRepeats db since as' (update seen (uids_for_action db since a))
      (update-HasNoRepeats seen (uids_for_action db since a) h)

has_action-dedup :
    (b : Action) (seen as' : List Action)
    → has_action b (dedup seen as') ≡ (has_action b as' && not (has_action b seen))
has_action-dedup b seen [] = refl
has_action-dedup b seen (a ∷ as') = ground (
  arith,
  has_action-dedup b seen as',
  has_action-dedup b (a ∷ seen) as',
  λ (h : action_eq b a ≡ true). action_eq→eq b a h,
)

module _ (db : Db) (since : ℕ) (a : Action) (as' : List Action) where
  -- The set that `distinct_uids_since` counts.
  pub counted_uids : List String
  counted_uids = seen_uids db since (dedup [] (a ∷ as')) []

  pub length-counted_uids : distinct_uids_since db since a as' ≡ length counted_uids
  unfolding distinct_uids_since counted_uids
  length-counted_uids = refl

  pub counted_uids-HasNoRepeats : HasNoRepeats counted_uids
  unfolding counted_uids
  counted_uids-HasNoRepeats = seen_uids-HasNoRepeats db since (dedup [] (a ∷ as')) [] tt

  pub member-counted_uids :
      (u : String) → is_member u counted_uids ≡ some_pass (names_uid since (a ∷ as') u) db.requests
  unfolding counted_uids
  member-counted_uids u =
      member-seen_uids db since u (dedup [] (a ∷ as')) []
      ∙ some_pass-congr _ _ db.requests
          (λ r. ground (arith, has_action-dedup r.action [] (a ∷ as')))

-- `distinct_uids_since` is the size of a set: no account twice, and an account is in it exactly
-- when some allowed row of the window has that account and one of the named actions.
pub distinct_uids_since-eq-size :
    (db : Db) (since : ℕ) (a : Action) (as' : List Action)
    → (s : List String) × (distinct_uids_since db since a as' ≡ length s)
      × HasNoRepeats s
      × ((u : String) → is_member u s ≡ some_pass (names_uid since (a ∷ as') u) db.requests)
distinct_uids_since-eq-size db since a as' = (
  counted_uids db since a as',
  length-counted_uids db since a as',
  counted_uids-HasNoRepeats db since a as',
  member-counted_uids db since a as',
)
