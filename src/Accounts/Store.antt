-- ===== src/Accounts/Store.antt =====
-- The manifest of backend/accounts/account.py, its entries, and the writers of single fields.

use mathlib.Core.Path.{◌≡◌, refl}
use mathlib.Core.Logic.{◌⊎◌, inl, inr}
use email_summary.Prelude.{
  String, Bool, true, false, not, ◌&&◌, ◌||◌, Option, none, some, List, [], ◌∷◌, str_eq,
  if◌then◌else◌, some_pass, select,
}
use email_summary.Prelude.Text.{norm}

pub data Error : Type 0 where
  -- InvalidAccountData, AccountLimitReached, KeyError and AssertionError
  invalid_data limit_reached no_account assertion : Error

-- What a reader or a writer ends with.
pub data Result {ℓ} (A : Type ℓ) : Type ℓ where
  err : Error → Result A
  ok : A → Result A

-- `if not b: raise e`
abbrev pub guard : Bool → Error → Result (Unit {0})
guard b e = if b then ok tt else err e

infixl 5 ◌>>=◌
abbrev pub ◌>>=◌ {ℓ ℓ'} : {A : Type ℓ} {B : Type ℓ'} → Result A → (A → Result B) → Result B
err e >>= next = err e
ok a >>= next = next a

infixl 5 ◌>>◌
abbrev pub ◌>>◌ {ℓ} : {B : Type ℓ} → Result (Unit {0}) → Result B → Result B
first >> next = first >>= (λ done. next)

-- What a chain that returned went through.
pub chain_returned {ℓ ℓ'} :
    {A : Type ℓ} {B : Type ℓ'} {answer : B} (next : A → Result B) (step : Result A)
    → (step >>= next) ≡ ok answer
    → (middle : A) × (step ≡ ok middle) × (next middle ≡ ok answer)
chain_returned next (err e) h = cc
chain_returned next (ok middle) h = (middle, refl, h)

pub Result-cases {ℓ} :
    {A : Type ℓ} (m : Result A) → ((e : Error) × (m ≡ err e)) ⊎ ((a : A) × (m ≡ ok a))
Result-cases (ok a) = inr (a, refl)
Result-cases (err e) = inl (e, refl)

-- One object of the store; an absent key is `none`.
pub record Entry : Type 0 where
  pub id : String
  pub handle : Option String
  pub first : String
  pub last : String
  pub first_aliases : List String
  pub emails : List String
  pub phones : List String
  pub contacts : List String
  pub telegram_chat : Option String
  pub telegram_token : Option String
  pub timezone : Option String
  pub auto_schedule : Option Bool
  pub plan_status : Option String
  pub token_file : Option String
  pub state_file : Option String
  pub voice_file : Option String
  pub polar_customer_id : Option String
  pub inference_provider : Option String
  pub pii_analyzer : Option Bool
  pub ban_dashes : Option Bool
  pub community_calendar : Option String

-- What the writers pass to `audit.record`.
pub data Area : Type 0 where
  account_area plan_area telegram_area billing_area settings_area voice_area : Area

pub record AuditRow : Type 0 where
  pub account : String
  pub area : Area
  pub outcome : String
  pub fields : List String

-- `manifest` is `none` where there is no file; `log` holds the newest audit row first.
pub record State : Type 0 where
  pub manifest : Option (List Entry)
  pub log : List AuditRow

-- The entries of a store; a missing file counts as none.
abbrev pub entries_of : State → List Entry
entries_of s = elim s.manifest [ none ↦ [] | some entries ↦ entries ]

-- Truthiness of an optional text.
abbrev pub given : Option String → Bool
given none = false
given (some s) = not (str_eq s "")

abbrev pub or_text : Option String → String → String
or_text none d = d
or_text (some s) d = s

abbrev pub same_text : Option String → String → Bool
same_text none k = false
same_text (some s) k = str_eq s k

-- `_manifest_transaction` up to the caller's body.
unfoldable pub open_manifest : Bool → State → Result (List Entry)
open_manifest missing_ok s = elim s.manifest [
  | some entries ↦ ok entries
  | none ↦ if missing_ok then ok [] else err assertion
]

abbrev pub close_manifest : List Entry → AuditRow → State → State
close_manifest entries row s = record { manifest = some entries; log = row ∷ s.log }

abbrev pub is_entry : String → Entry → Bool
is_entry key e = str_eq (norm e.id) key

-- `_entry_for`: the first entry with the address.
abbrev pub find_entry : String → List Entry → Option Entry
find_entry key [] = none
find_entry key (e ∷ es) = if is_entry key e then some e else find_entry key es

unfoldable pub entry_for : String → List Entry → Result Entry
entry_for account_id entries = elim (find_entry (norm account_id) entries) [
  | some e ↦ ok e
  | none ↦ err no_account
]

-- The list after the entry that `_entry_for` returned was changed in place.
abbrev pub edit_first : String → (Entry → Entry) → List Entry → List Entry
edit_first key f [] = []
edit_first key f (e ∷ es) = if is_entry key e then f e ∷ es else e ∷ edit_first key f es

abbrev pub edit : String → (Entry → Entry) → List Entry → List Entry
edit account_id = edit_first (norm account_id)

-- `set_plan_status`
unfoldable pub set_plan_status : String → String → State → Result (String × State)
unfolding open_manifest entry_for
set_plan_status account_id status s = do
  guard (str_eq status "active" || str_eq status "inactive") invalid_data
  entries ← open_manifest false s
  entry ← entry_for account_id entries
  let prior = or_text entry.plan_status "active"
  ok (
    prior,
    close_manifest (edit account_id (λ e. record e { plan_status = some status }) entries)
        (record { account = entry.id; area = plan_area; outcome = status; fields = prior ∷ [] }) s,
  )

abbrev pub or_keep : Option String → Option String → Option String
or_keep new old = if given new then new else old

abbrev pub given_fields : Option String → Option String → List String
given_fields chat_id token =
    let tokens = if given token then "token" ∷ [] else [] in
    if given chat_id then "chat_id" ∷ tokens else tokens

abbrev pub unlink : Entry → Entry
unlink e = record e { telegram_chat = none; telegram_token = none }

abbrev pub link : Option String → Option String → Entry → Entry
link chat_id token e = record e {
  telegram_chat = or_keep chat_id e.telegram_chat;
  telegram_token = or_keep token e.telegram_token;
}

-- `set_telegram`
unfoldable pub set_telegram :
    String → Option String → Option String → Bool → State → Result (Entry × State)
unfolding open_manifest entry_for
set_telegram account_id chat_id token clear s = do
  guard (clear || given chat_id || given token) assertion
  entries ← open_manifest false s
  entry ← entry_for account_id entries
  let change = if clear then unlink else link chat_id token
  ok (
    change entry,
    close_manifest (edit account_id change entries)
        (record {
          account = entry.id;
          area = telegram_area;
          outcome = if clear then "unlinked" else "linked";
          fields = if clear then [] else given_fields chat_id token;
        })
        s,
  )

-- Another account's entry that names the customer.
abbrev pub holds_customer : String → String → Entry → Bool
holds_customer customer_id own e =
    same_text e.polar_customer_id customer_id && not (str_eq e.id own)

-- `set_polar_customer_id`
unfoldable pub set_polar_customer_id : String → String → State → Result (Entry × State)
unfolding open_manifest entry_for
set_polar_customer_id account_id customer_id s = do
  guard (not (str_eq customer_id "")) assertion
  entries ← open_manifest false s
  entry ← entry_for account_id entries
  guard (not (some_pass (holds_customer customer_id entry.id) entries)) invalid_data
  let change = λ (e : Entry). record e { polar_customer_id = some customer_id }
  ok (
    change entry,
    close_manifest (edit account_id change entries)
        (record { account = entry.id; area = billing_area; outcome = "linked"; fields = [] }) s,
  )

-- `set_voice`
unfoldable pub set_voice : String → Option String → Bool → State → Result (Entry × State)
unfolding open_manifest entry_for
set_voice account_id voice_file clear s = do
  guard (clear || given voice_file) assertion
  entries ← open_manifest false s
  entry ← entry_for account_id entries
  let change = λ (e : Entry). record e { voice_file = if clear then none else voice_file }
  ok (
    change entry,
    close_manifest (edit account_id change entries)
        (record {
          account = entry.id;
          area = voice_area;
          outcome = if clear then "cleared" else "saved";
          fields = [];
        })
        s,
  )

-- `delete_account` on the manifest; the key and the files go with it outside the model.
unfoldable pub delete_account : String → State → Result (Bool × State)
unfolding open_manifest
delete_account account_id s = do
  entries ← open_manifest false s
  ok (elim (select (is_entry (norm account_id)) entries) [
    | [] ↦ (false, s)
    | removed ∷ _ ↦ (
      true,
      close_manifest (select (λ e. not (is_entry (norm account_id) e)) entries)
          (record { account = removed.id; area = account_area; outcome = "deleted"; fields = [] })
          s,
    )
  ])
