-- ===== src/Cosigner/Audit/Counts.antt =====
-- What the counters of cosigner/audit.py count.
use email_summary.Prelude.{
  ℕ, String, ◌≡◌, refl, sym, ◌∙◌, Bool, true, false, not, ◌&&◌, ◌||◌, Option, none, some, List, [],
  ◌∷◌, str_eq, count, count-congr, count-or, count-false, arith, inl, inr, Bool-cases,
}
use email_summary.Cosigner.Audit.{
  Action, wrap, unwrap_and_sign, unwrap, sign_dpop, rewrap, action_eq, Row, Db, since_all,
  since_action, count_one, count_each, several, has_action, dedup, granted_since,
}

pub action_eq→eq : (a b : Action) → action_eq a b ≡ true → a ≡ b
action_eq→eq wrap b h = ground arith
action_eq→eq unwrap_and_sign b h = ground arith
action_eq→eq unwrap b h = ground arith
action_eq→eq sign_dpop b h = ground arith
action_eq→eq rewrap b h = ground arith

pub action_eq_refl : (a : Action) → action_eq a a ≡ true
action_eq_refl wrap = refl
action_eq_refl _ = refl

-- `uid = ?`, where the caller gave one.
abbrev pub for_uid : Option String → Row → Bool
for_uid none r = true
for_uid (some uid) r = str_eq r.uid uid

-- The test of one `IN` clause.
abbrev pub in_clause : ℕ → Option String → List Action → Row → Bool
in_clause since uid as' r = since_all since r && has_action r.action as' && for_uid uid r

-- One name of the tuple, as a test.
abbrev one_clause : ℕ → Option String → Action → Row → Bool
one_clause since uid a r = since_all since r && action_eq r.action a && for_uid uid r

count_one_lem :
    (db : Db) (since : ℕ) (uid : Option String) (a : Action)
    → count_one db since uid a ≡ count (one_clause since uid a) db.requests
count_one_lem db since none a =
    count-congr (since_action since a) (one_clause since none a) db.requests (λ r. ground arith)
count_one_lem db since (some u) a =
    count-congr (λ r. since_action since a r && str_eq r.uid u) (one_clause since (some u) a)
      db.requests (λ r. ground arith)

has_action_eq :
    (a b : Action) (seen : List Action)
    → action_eq a b ≡ true
    → has_action a seen ≡ has_action b seen
has_action_eq a b seen h = rw (action_eq→eq a b h)

abbrev fresh_clause : ℕ → Option String → List Action → List Action → Row → Bool
fresh_clause since uid seen as' r = in_clause since uid as' r && not (has_action r.action seen)

module _ (since : ℕ) (uid : Option String) (seen : List Action) (a : Action)
    (as' : List Action) where
  old_name :
      has_action a seen ≡ true
      → (r : Row) → fresh_clause since uid seen as' r ≡ fresh_clause since uid seen (a ∷ as') r
  old_name h r = ground (arith, has_action_eq r.action a seen)

  new_name :
      has_action a seen ≡ false
      → (r : Row)
      → (one_clause since uid a r || fresh_clause since uid (a ∷ seen) as' r)
        ≡ fresh_clause since uid seen (a ∷ as') r
  new_name h r = ground (arith, has_action_eq r.action a seen)

  counted_once :
      (r : Row) → one_clause since uid a r ≡ true → fresh_clause since uid (a ∷ seen) as' r ≡ false
  counted_once r h = ground arith

module _ (db : Db) (since : ℕ) (uid : Option String) where
  -- Each name is counted at its first place only.
  count_each-dedup :
      (seen as' : List Action)
      → count_each db since uid (dedup seen as')
        ≡ count (fresh_clause since uid seen as') db.requests
  count_each-dedup seen [] =
      sym (count-false (fresh_clause since uid seen []) db.requests (λ r. ground arith))
  count_each-dedup seen (a ∷ as') = elim (Bool-cases (has_action a seen)) [
    | inl old ↦ rw old (
        count_each-dedup seen as' ∙ count-congr _ _ db.requests (old_name since uid seen a as' old))
    | inr new ↦ rw new (
        omega (
          arith,
          count_one_lem db since uid a,
          count_each-dedup (a ∷ seen) as',
          count-or (one_clause since uid a) (fresh_clause since uid (a ∷ seen) as') db.requests
              (counted_once since uid seen a as'),
          count-congr _ _ db.requests (new_name since uid seen a as' new),
        ))
  ]

-- `granted_since` over a tuple of actions counts each allowed row of the window once, whatever
-- repetitions the tuple has: exactly what one `IN` clause would count.
pub granted_since-eq-in_clause :
    (db : Db) (since : ℕ) (uid : Option String) (a : Action) (as' : List Action)
    → granted_since db since (several a as') uid ≡ count (in_clause since uid (a ∷ as')) db.requests
unfolding granted_since
granted_since-eq-in_clause db since none a as' =
    count_each-dedup db since none [] (a ∷ as') ∙ count-congr _ _ db.requests (λ r. ground arith)
granted_since-eq-in_clause db since (some u) a as' =
    count_each-dedup db since (some u) [] (a ∷ as')
    ∙ count-congr _ _ db.requests (λ r. ground arith)
