-- ===== src/Billing/Resolve.antt =====
-- `PolarBilling.resolve_account`: which local account an object of Polar's is about.
pub mod Links
use email_summary.Prelude.{
  String, ◌≡◌, refl, Bool, true, false, not, ◌&&◌, ◌||◌, Option, none, some, str_eq, eq_iff, arith,
  if◌then◌else◌, inl, inr, Option-cases, Bool-cases,
}
use email_summary.Accounts.Store.{
  Result, ok, err, ◌>>=◌, ◌>>◌, guard, assertion, State, given, same_text,
}
use email_summary.Accounts.Lookup.{Account, account_for_email, account_for_customer_id}
use email_summary.Billing.Polar.{Data, Polar, valid_id, customer_of, event_email}

-- `_stamped_account`
unfoldable pub stamped_account : Option String → Data → State → Result (Option Account)
stamped_account bot d s = elim d.account_stamp [
  | none ↦ ok none
  | some stamp ↦ if str_eq stamp "" then ok none else account_for_email bot stamp true s
]

-- `account_for_customer_id`, where the object names a customer
unfoldable pub by_customer : Option String → Option String → State → Result (Option Account)
by_customer bot none s = ok none
by_customer bot (some cid) s = if str_eq cid "" then ok none else account_for_customer_id bot cid s

-- `_customer_email`; the request refuses what is not an id
unfoldable pub fetched_email : Polar → String → Result (Option String)
fetched_email polar cid = do
  guard (valid_id cid) assertion
  ok (elim (polar.get_customer cid) [ none ↦ none | some email ↦ email ])

-- `if not email and cid: email = self._customer_email(cid)`
unfoldable pub email_of : Polar → Data → Result (Option String)
email_of polar d = elim (customer_of d) [
  | none ↦ ok (event_email d)
  | some cid ↦
      if given (event_email d) || str_eq cid "" then ok (event_email d) else fetched_email polar cid
]

-- The account is linked to another customer than the object's.
abbrev pub linked_elsewhere : Option String → Account → Bool
linked_elsewhere none a = false
linked_elsewhere (some cid) a =
    not (str_eq cid "") && given a.polar_customer_id && not (same_text a.polar_customer_id cid)

abbrev pub unless_linked : Option String → Option Account → Option Account
unless_linked cid none = none
unless_linked cid (some a) = if linked_elsewhere cid a then none else some a

-- The branch of the email.
unfoldable pub by_email :
    Option String → Option String → Option String → State → Result (Option Account)
by_email bot cid none s = ok none
by_email bot cid (some email) s =
    let found = (do a ← account_for_email bot email true s; ok (unless_linked cid a)) in
    if str_eq email "" then ok none else found

-- The first step that finds an account answers.
abbrev pub or_next : Option Account → Result (Option Account) → Result (Option Account)
or_next none next = next
or_next (some a) next = ok (some a)

-- The steps after the stamp.
unfoldable pub resolve_unstamped : Polar → Option String → Data → State → Result (Option Account)
resolve_unstamped polar bot d s = do
  linked ← by_customer bot (customer_of d) s
  or_next linked (do email ← email_of polar d; by_email bot (customer_of d) email s)

-- `resolve_account`
unfoldable pub resolve_account : Polar → Option String → Data → State → Result (Option Account)
resolve_account polar bot d s = do
  stamped ← stamped_account bot d s
  or_next stamped (resolve_unstamped polar bot d s)
