-- ===== src/Accounts/Register.antt =====
-- `register_account` of backend/accounts/account.py, with `check_handle`.
pub mod Outcomes
use Prim.Native.Char.{Char, code}
use text.Mathlib.Text.{find?}
use email_summary.Prelude.{
  ℕ, String, Bool, true, false, not, ◌&&◌, ◌||◌, Option, none, some, List, [], ◌∷◌, ◌++◌, str_eq,
  is_some, if◌then◌else◌, leb, ◌==◌, suc, length,
}
use email_summary.Prelude.Text.{norm}
use email_summary.Accounts.Store.{
  Result, ok, err, ◌>>=◌, ◌>>◌, guard, invalid_data, limit_reached, Entry, State, account_area,
  given, or_text, or_keep, open_manifest, close_manifest, is_entry, find_entry, edit_first,
}

is_hex : Char → Bool
is_hex c = leb b'0' (code c) && leb (code c) b'9' || leb b'a' (code c) && leb (code c) b'f'

all_hex : String → Bool
all_hex String.[] = true
all_hex (String.◌∷◌ c s) = is_hex c && all_hex s

size : String → ℕ
size String.[] = 0
size (String.◌∷◌ c s) = suc (size s)

-- `HANDLE_RE.match`: 32 digits, hexadecimal, lower case.
unfoldable pub is_handle : String → Bool
unfolding is_hex all_hex size
is_handle h = all_hex h && size h == 32

-- `check_handle`
unfoldable pub check_handle : Option String → Result String
check_handle none = err invalid_data
check_handle (some h) = if is_handle h then ok h else err invalid_data

pub record Registration : Type 0 where
  pub email : String
  pub first : String
  pub last : String
  pub token_file : Option String
  pub first_aliases : List String
  pub telegram_chat_id : Option String
  pub telegram_token : Option String
  pub plan_status : String
  pub state_file : Option String
  pub timezone : Option String
  pub auto_schedule : Bool
  pub voice_file : Option String
  pub handle : Option String

abbrev contains : String → String → Bool
contains s part = is_some (find? s part)

-- The two checks on the address.
unfoldable pub is_address : String → Bool
is_address email =
    not (str_eq email "")
    && contains email "@"
    && not (contains email "/")
    && not (contains email "\\")
    && not (contains email "..")

abbrev pub truthy : Option String → Option String
truthy s = if given s then s else none

-- The entry as the arguments give it.
unfoldable pub new_entry : String → String → Registration → Entry
new_entry email handle reg = record {
  id = email;
  handle = some handle;
  first = reg.first;
  last = reg.last;
  first_aliases = reg.first_aliases;
  emails = email ∷ [];
  phones = [];
  contacts = [];
  telegram_chat = truthy reg.telegram_chat_id;
  telegram_token = truthy reg.telegram_token;
  timezone = some (if given reg.timezone then or_text reg.timezone "UTC" else "UTC");
  auto_schedule = some reg.auto_schedule;
  plan_status = some reg.plan_status;
  token_file = truthy reg.token_file;
  state_file = truthy reg.state_file;
  voice_file = truthy reg.voice_file;
  polar_customer_id = none;
  inference_provider = none;
  pii_analyzer = none;
  ban_dashes = none;
  community_calendar = none;
}

-- A key that is there wins over the default.
abbrev pub present {ℓ} : {A : Type ℓ} → Option A → Option A → Option A
present none d = d
present (some a) d = some a

-- What a returning user keeps; `handle` is the entry's own, checked.
unfoldable pub carried : Option String → Entry → Entry → Entry
carried handle existing entry = record entry {
  handle = present handle entry.handle;
  plan_status = present existing.plan_status entry.plan_status;
  telegram_chat = present entry.telegram_chat existing.telegram_chat;
  telegram_token = present entry.telegram_token existing.telegram_token;
  timezone = present existing.timezone entry.timezone;
  auto_schedule = present existing.auto_schedule entry.auto_schedule;
  inference_provider = existing.inference_provider;
  pii_analyzer = existing.pii_analyzer;
  ban_dashes = existing.ban_dashes;
  community_calendar = existing.community_calendar;
  polar_customer_id = present entry.polar_customer_id (truthy existing.polar_customer_id);
  voice_file = present entry.voice_file (truthy existing.voice_file);
  token_file = present entry.token_file (truthy existing.token_file);
  state_file = present entry.state_file (truthy existing.state_file);
}

-- `if existing.get("handle"): entry["handle"] = check_handle(existing["handle"])`
unfoldable pub kept_handle : Option String → Result (Option String)
kept_handle handle =
    let checked = (do h ← check_handle handle; ok (some h)) in
    if given handle then checked else ok none

-- The loop over the accounts, and its `else`.
unfoldable pub place : ℕ → Entry → List Entry → Result (Entry × List Entry × String)
place max_accounts entry entries = elim (find_entry entry.id entries) [
  | some existing ↦ (do
    handle ← kept_handle existing.handle
    let merged = carried handle existing entry
    ok (merged, edit_first entry.id (λ _. merged) entries, "updated"))
  | none ↦
      if leb max_accounts (length entries)
      then err limit_reached
      else ok (entry, entries ++ entry ∷ [], "created")
]

-- `register_account`, where `fresh` is what `new_handle` would return
unfoldable pub register_account : ℕ → String → Registration → State → Result (Entry × State)
register_account max_accounts fresh reg s = do
  let email = norm reg.email
  guard (is_address email) invalid_data
  handle ← check_handle (some (if given reg.handle then or_text reg.handle fresh else fresh))
  entries ← open_manifest true s
  (entry, after, outcome) ← place max_accounts (new_entry email handle reg) entries
  ok (
    entry,
    close_manifest after
        (record { account = email; area = account_area; outcome = outcome; fields = [] }) s,
  )
