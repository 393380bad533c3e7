-- ===== src/Accounts/Unique.antt =====
-- One Polar customer belongs to one account.
use email_summary.Prelude.{String, ◌≡◌, false, some, str_eq}
use email_summary.Accounts.Store.{Entry}

module _ (cid : String) (real : str_eq cid "" ≡ false) where
  abbrev relink : Entry → Entry
  relink e = record e { polar_customer_id = some cid }
