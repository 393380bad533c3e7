-- ===== src/Accounts/Samples.antt =====
-- A store with two entries, for the tests.
use email_summary.Prelude.{String, some, none, false, [], ◌∷◌}
use email_summary.Accounts.Store.{Result, ok, err, Entry, State}

abbrev pub ada_handle : String
ada_handle = "0123456789abcdef0123456789abcdef"

abbrev pub bob_handle : String
bob_handle = "ffffffffffffffffffffffffffffffff"

abbrev pub ada : Entry
ada = record {
  id = "ada@example.org";
  handle = some ada_handle;
  first = "Ada";
  last = "L";
  first_aliases = [];
  emails = "ada@example.org" ∷ "ada@example.net" ∷ [];
  phones = "1" ∷ [];
  contacts = [];
  telegram_chat = some "77";
  telegram_token = none;
  timezone = some "UTC";
  auto_schedule = none;
  plan_status = none;
  token_file = none;
  state_file = none;
  voice_file = none;
  polar_customer_id = some "cust-1";
  inference_provider = none;
  pii_analyzer = some false;
  ban_dashes = none;
  community_calendar = none;
}

abbrev pub bob : Entry
bob = record ada {
  id = "bob@example.org";
  handle = some bob_handle;
  emails = "bob@example.org" ∷ [];
  polar_customer_id = none;
}

abbrev pub store : State
store = record { manifest = some (ada ∷ bob ∷ []); log = [] }

-- What a call returned, or the default.
abbrev pub got {ℓ} : {A : Type ℓ} → A → Result A → A
got d (ok a) = a
got d (err e) = d
