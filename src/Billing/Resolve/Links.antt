-- ===== src/Billing/Resolve/Links.antt =====
-- An object without a stamp never moves a link.
use email_summary.Prelude.{
  String, ◌≡◌, true, false, ◌||◌, Option, none, some, List, [], ◌∷◌, str_eq, arith, inl, inr,
  Bool-cases,
}
use email_summary.Prelude.Text.{strip}
use email_summary.Accounts.Store.{ok, Result-cases, State, given, same_text}
use email_summary.Accounts.Lookup.{
  Account, account_for_email, account_for_customer_id, first_customer, all_accounts,
}
use email_summary.Billing.Polar.{Data, Polar, customer_of}
use email_summary.Billing.Resolve.{
  stamped_account, by_customer, email_of, by_email, linked_elsewhere, resolve_unstamped,
  resolve_account,
}

first_customer-same_text :
    (cid : String) (pool : List Account) (a : Account)
    → first_customer cid pool ≡ some a
    → same_text a.polar_customer_id cid ≡ true
first_customer-same_text cid [] a h = cc
first_customer-same_text cid (b ∷ pool) a h = ground (arith, first_customer-same_text cid pool a)

by_customer-same_text :
    (bot : Option String) (cid : String) (s : State) (a : Account)
    → by_customer bot (some cid) s ≡ ok (some a)
    → same_text a.polar_customer_id (strip cid) ≡ true
unfolding by_customer account_for_customer_id
by_customer-same_text bot cid s a h = elim (Result-cases (all_accounts bot s)) [
  | inl (x, failed) ↦ absurd (ground arith)
  | inr (pool, loaded) ↦ first_customer-same_text (strip cid) pool a (ground arith)
]

by_email-linked :
    (bot cid email : Option String) (s : State) (a : Account)
    → by_email bot cid email s ≡ ok (some a)
    → linked_elsewhere cid a ≡ false
unfolding by_email
by_email-linked bot cid none s a h = cc
by_email-linked bot cid (some email) s a h =
    elim (Result-cases (account_for_email bot email true s)) [
      | inl (x, failed) ↦ absurd (ground arith)
      | inr (none, loaded) ↦ absurd (ground arith)
      | inr (some b, loaded) ↦ elim (Bool-cases (linked_elsewhere cid b)) [
        | inl moved ↦ absurd (ground arith)
        | inr fine ↦ ground arith
      ]
    ]

-- Where the stamp of an object names no account, and the object names a customer, the account it
-- resolves to is linked to that customer or to none: whatever emails the object or Polar gives, the
-- account of another customer is never the answer.
pub resolve_unstamped_keeps_links :
    (polar : Polar) (bot : Option String) (d : Data) (cid : String) (s : State) (a : Account)
    → stamped_account bot d s ≡ ok none
    → customer_of d ≡ some cid
    → str_eq cid "" ≡ false
    → resolve_account polar bot d s ≡ ok (some a)
    → given a.polar_customer_id ≡ true
    → (same_text a.polar_customer_id cid || same_text a.polar_customer_id (strip cid)) ≡ true
unfolding resolve_account resolve_unstamped
resolve_unstamped_keeps_links polar bot d cid s a unstamped names real h linked =
    elim (Result-cases (by_customer bot (some cid) s)) [
      | inl (x, failed) ↦ absurd (ground arith)
      | inr (some b, found) ↦ ground (arith, by_customer-same_text bot cid s b found)
      | inr (none, found) ↦ elim (Result-cases (email_of polar d)) [
        | inl (x, failed) ↦ absurd (ground arith)
        | inr (email, got) ↦
            let free = by_email-linked bot (some cid) email s a (ground arith) in ground arith
      ]
    ]
