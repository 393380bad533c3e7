-- ===== src/Accounts/Lookup.antt =====
-- The readers of backend/accounts/account.py: the loaded accounts, and who owns an address.
use email_summary.Prelude.{
  String, Bool, true, false, not, ◌&&◌, ◌||◌, Option, none, some, List, [], ◌∷◌, map, str_eq,
  if◌then◌else◌, some_pass, select,
}
use email_summary.Prelude.Text.{norm, lower, strip}
use email_summary.Accounts.Store.{
  Result, ok, err, ◌>>=◌, invalid_data, Entry, State, given, or_text, same_text,
}

-- `TelegramTarget`
pub record Target : Type 0 where
  pub token : String
  pub chat_id : String

-- The fields of `Account` that the callers modelled here read.
pub record Account : Type 0 where
  pub id : String
  pub handle : Option String
  pub emails : List String
  pub telegram : Option Target
  pub plan_status : String
  pub polar_customer_id : Option String
  pub auto_schedule : Bool

-- `tg.get("token") or bot_token()`
abbrev pub bot_or : Option String → Option String → Option String
bot_or token bot = if given token then token else bot

-- `_telegram_from_entry`, with the shared bot's token
unfoldable pub telegram_from_entry : Option String → Entry → Option Target
telegram_from_entry bot e =
    if given e.telegram_chat && given (bot_or e.telegram_token bot)
    then some (record {
      token = or_text (bot_or e.telegram_token bot) "";
      chat_id = or_text e.telegram_chat "";
    })
    else none

abbrev pub or_bool : Option Bool → Bool → Bool
or_bool none d = d
or_bool (some b) d = b

-- `_account_from_entry`
unfoldable pub account_from_entry : Option String → Entry → Account
account_from_entry bot e = record {
  id = e.id;
  handle = e.handle;
  emails = e.emails;
  telegram = telegram_from_entry bot e;
  plan_status = or_text e.plan_status "active";
  polar_customer_id = e.polar_customer_id;
  auto_schedule = or_bool e.auto_schedule false;
}

abbrev pub text_in : String → List String → Bool
text_in k = some_pass (λ s. str_eq s k)

-- `len(xs) == len(set(xs))`
abbrev pub no_repeats : List String → Bool
no_repeats [] = true
no_repeats (x ∷ xs) = not (text_in x xs) && no_repeats xs

-- The values of a field that are not empty.
abbrev pub given_values : List (Option String) → List String
given_values [] = []
given_values (none ∷ xs) = given_values xs
given_values (some x ∷ xs) = let rest = given_values xs in if str_eq x "" then rest else x ∷ rest

abbrev pub ids : List Entry → List String
ids entries = map (λ e. e.id) entries

abbrev pub handles : List Entry → List String
handles entries = given_values (map (λ e. e.handle) entries)

abbrev pub customers : List Entry → List String
customers entries = given_values (map (λ e. e.polar_customer_id) entries)

-- The checks of `all_accounts`.
abbrev pub is_sound : List Entry → Bool
is_sound entries =
    no_repeats (ids entries) && no_repeats (handles entries) && no_repeats (customers entries)

-- `all_accounts`
unfoldable pub all_accounts : Option String → State → Result (List Account)
all_accounts bot s = elim s.manifest [
  | none ↦ err invalid_data
  | some entries ↦
      if is_sound entries then ok (map (account_from_entry bot) entries) else err invalid_data
]

abbrev pub is_active : Account → Bool
is_active a = not (str_eq a.plan_status "inactive")

-- `load_accounts`
unfoldable pub load_accounts : Option String → State → Result (List Account)
load_accounts bot s = do pool ← all_accounts bot s; ok (select is_active pool)

abbrev pub owns : String → Account → Bool
owns email a = str_eq (lower a.id) email || some_pass (λ e. str_eq (lower e) email) a.emails

abbrev pub first_owner : String → List Account → Option Account
first_owner email [] = none
first_owner email (a ∷ pool) = if owns email a then some a else first_owner email pool

-- `_match`
unfoldable pub match_address : List Account → String → Option Account
match_address pool email =
    let key = norm email in if str_eq key "" then none else first_owner key pool

-- `get_account`
unfoldable pub get_account : Option String → String → State → Result (Option Account)
get_account bot email s = do pool ← load_accounts bot s; ok (match_address pool email)

-- `account_for_email`
unfoldable pub account_for_email : Option String → String → Bool → State → Result (Option Account)
account_for_email bot email include_inactive s = do
  pool ← if include_inactive then all_accounts bot s else load_accounts bot s
  ok (match_address pool email)

abbrev pub first_customer : String → List Account → Option Account
first_customer cid [] = none
first_customer cid (a ∷ pool) =
    if same_text a.polar_customer_id cid then some a else first_customer cid pool

-- `account_for_customer_id`
unfoldable pub account_for_customer_id : Option String → String → State → Result (Option Account)
account_for_customer_id bot customer_id s =
    let cid = strip customer_id in
    let found = (do pool ← all_accounts bot s; ok (first_customer cid pool)) in
    if str_eq cid "" then ok none else found

abbrev pub handle_at : String → List Entry → Option String
handle_at key [] = none
handle_at key (e ∷ es) = if str_eq (norm e.id) key then e.handle else handle_at key es

-- `handle_for_email`
unfoldable pub handle_for_email : String → State → Option String
handle_for_email email s = elim s.manifest [
  | none ↦ none
  | some entries ↦ handle_at (norm email) entries
]

abbrev pub email_at : Option String → List Entry → Option String
email_at none [] = none
email_at none (e ∷ es) = elim e.handle [ none ↦ some e.id | some _ ↦ email_at none es ]
email_at (some h) [] = none
email_at (some h) (e ∷ es) = if same_text e.handle h then some e.id else email_at (some h) es

-- `email_for_handle`
unfoldable pub email_for_handle : Option String → State → Option String
email_for_handle handle s = elim s.manifest [ none ↦ none | some entries ↦ email_at handle entries ]
