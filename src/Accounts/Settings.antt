-- ===== src/Accounts/Settings.antt =====
-- `set_settings` of backend/accounts/account.py: the preferences the web pages own.
pub mod Again
use Prim.Native.Char.{Char, code}
use email_summary.Prelude.{
  ℕ, suc, String, Bool, true, false, not, ◌&&◌, ◌||◌, Option, none, some, List, [], ◌∷◌, ◌++◌,
  str_eq, if◌then◌else◌, leb, ◌==◌, is_some, some_pass,
}
use email_summary.Prelude.Text.{norm}
use email_summary.Accounts.Store.{
  Result, ok, err, ◌>>=◌, ◌>>◌, guard, invalid_data, assertion, Entry, State, settings_area,
  or_text, same_text, open_manifest, close_manifest, entry_for, edit,
}
use email_summary.Accounts.Register.{present}

abbrev in_range : ℕ → ℕ → Char → Bool
in_range a b c = leb a (code c) && leb (code c) b

abbrev is_letter : Char → Bool
is_letter c = in_range b'a' b'z' c

abbrev is_alphanumeric : Char → Bool
is_alphanumeric c = is_letter c || in_range b'0' b'9' c

-- `[a-z0-9.-]`
abbrev is_domain_char : Char → Bool
is_domain_char c = is_alphanumeric c || code c == b'.' || code c == b'-'

-- `[a-z0-9._%+-]`
abbrev is_local_char : Char → Bool
is_local_char c = is_domain_char c || code c == b'_' || code c == b'%' || code c == b'+'

-- `[a-z]{lo,hi}` to the end, with `n` letters read before.
letters_to_end : ℕ → String → Bool
letters_to_end n String.[] = leb 2 n && leb n 24
letters_to_end n (String.◌∷◌ c s) = is_letter c && letters_to_end (suc n) s

-- `[a-z0-9.-]{1,128}\.[a-z]{2,24}`, with `n` characters of the first part read before.
domain_to_end : ℕ → String → Bool
unfolding letters_to_end
domain_to_end n String.[] = false
domain_to_end n (String.◌∷◌ c s) =
    leb 1 n && leb n 128 && code c == b'.' && letters_to_end 0 s
    || is_domain_char c && domain_to_end (suc n) s

-- `[a-z0-9._%+-]{0,127}@...`, with `n` characters read before.
local_to_end : ℕ → String → Bool
unfolding domain_to_end
local_to_end n String.[] = false
local_to_end n (String.◌∷◌ c s) =
    leb n 127 && code c == b'@' && domain_to_end 0 s || is_local_char c && local_to_end (suc n) s

-- `CALENDAR_ID_RE.fullmatch`
unfoldable pub is_calendar_id : String → Bool
unfolding local_to_end
is_calendar_id String.[] = false
is_calendar_id (String.◌∷◌ c s) = is_alphanumeric c && local_to_end 0 s

-- The arguments; `none` where the caller did not ask.
pub record Asked : Type 0 where
  pub timezone : Option String
  pub auto_schedule : Option Bool
  pub inference_provider : Option String
  pub pii_analyzer : Option Bool
  pub ban_dashes : Option Bool
  pub community_calendar : Option String

pub record Provider : Type 0 where
  pub name : String
  pub configured : Bool

abbrev pub asks_something : Asked → Bool
asks_something a =
    is_some a.timezone
    || is_some a.auto_schedule
    || is_some a.inference_provider
    || is_some a.pii_analyzer
    || is_some a.ban_dashes
    || is_some a.community_calendar

-- A provider that is asked for is one of `PROVIDERS`, and its key is set.
abbrev pub may_select : List Provider → Option String → Bool
may_select providers none = true
may_select providers (some name) =
    some_pass (λ (p : Provider). str_eq p.name name && p.configured) providers

abbrev pub calendar_ok : Option String → Bool
calendar_ok none = true
calendar_ok (some calendar) = str_eq (norm calendar) "" || is_calendar_id (norm calendar)

abbrev pub same_flag : Option Bool → Bool → Bool
same_flag none b = false
same_flag (some a) b = if a then b else not b

abbrev pub text_changed : String → Option String → Option String → List String
text_changed field none stored = []
text_changed field (some value) stored = if same_text stored value then [] else field ∷ []

abbrev pub flag_changed : String → Option Bool → Option Bool → List String
flag_changed field none stored = []
flag_changed field (some value) stored = if same_flag stored value then [] else field ∷ []

abbrev pub calendar_changed : Option String → Option String → List String
calendar_changed none stored = []
calendar_changed (some calendar) stored =
    if str_eq (or_text stored "") (norm calendar) then [] else "community_calendar" ∷ []

-- The fields whose value the call changes; an absent key counts as its default.
unfoldable pub changed_fields : Asked → Entry → List String
changed_fields a e =
    text_changed "timezone" a.timezone (present e.timezone (some "UTC"))
    ++ flag_changed "auto_schedule" a.auto_schedule (present e.auto_schedule (some false))
    ++ text_changed "inference_provider" a.inference_provider e.inference_provider
    ++ flag_changed "pii_analyzer" a.pii_analyzer (present e.pii_analyzer (some true))
    ++ flag_changed "ban_dashes" a.ban_dashes (present e.ban_dashes (some true))
    ++ calendar_changed a.community_calendar e.community_calendar

abbrev pub new_calendar : Option String → Option String → Option String
new_calendar none stored = stored
new_calendar (some calendar) stored =
    if str_eq (norm calendar) "" then none else some (norm calendar)

unfoldable pub prefer : Asked → Entry → Entry
prefer a e = record e {
  timezone = present a.timezone e.timezone;
  auto_schedule = present a.auto_schedule e.auto_schedule;
  inference_provider = present a.inference_provider e.inference_provider;
  pii_analyzer = present a.pii_analyzer e.pii_analyzer;
  ban_dashes = present a.ban_dashes e.ban_dashes;
  community_calendar = new_calendar a.community_calendar e.community_calendar;
}

abbrev pub saved_or_unchanged : List String → String
saved_or_unchanged [] = "unchanged"
saved_or_unchanged (x ∷ xs) = "saved"

-- `set_settings`
unfoldable pub set_settings : List Provider → String → Asked → State → Result (Entry × State)
unfolding open_manifest entry_for
set_settings providers account_id a s = do
  guard (asks_something a) assertion
  guard (may_select providers a.inference_provider) assertion
  entries ← open_manifest false s
  entry ← entry_for account_id entries
  guard (calendar_ok a.community_calendar) invalid_data
  ok (
    prefer a entry,
    close_manifest (edit account_id (prefer a) entries)
        (record {
          account = entry.id;
          area = settings_area;
          outcome = saved_or_unchanged (changed_fields a entry);
          fields = changed_fields a entry;
        })
        s,
  )
