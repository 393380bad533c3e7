-- ===== src/Trail.antt =====
-- backend/audit.py: one row for each change a person made, and how long it is kept. A call that asserts
-- ends in `none`.
pub mod Retained
pub mod Clean
mod Tests
use Prim.Native.Char.{Char, code}
use Prim.Native.String
use email_summary.Prelude.{
  ℕ, zero, suc, ◌+◌, ◌-◌, ◌*◌, String, Bool, true, false, not, ◌&&◌, ◌||◌, Option, none, some, List,
  [], ◌∷◌, str_eq, if◌then◌else◌, leb, ltb, ◌==◌, take, length, select, count,
}
use email_summary.Prelude.Sets.{is_member}
use email_summary.Prelude.Split.{all_chars, join}
use email_summary.Accounts.Store.{given, or_text}

pub record TrailRow : Type 0 where
  pub time : ℕ
  pub account : String
  pub action : String
  pub outcome : String
  pub detail : Option String
  pub source_ip : Option String
  pub user_agent : Option String

-- The table, newest first, and `_LAST_PRUNE`.
pub record Trail : Type 0 where
  pub events : List TrailRow
  pub last_prune : ℕ

abbrev pub actions : List String
actions =
    "sign-in" ∷ "sign-out" ∷ "consent" ∷ "account" ∷ "settings" ∷ "telegram" ∷ "voice"
    ∷ "personal-context" ∷ "plan" ∷ "billing-customer" ∷ []

abbrev pub is_start : Char → Bool
is_start c = leb 97 (code c) && leb (code c) 122 || leb 48 (code c) && leb (code c) 57

abbrev pub is_inner : Char → Bool
is_inner c =
    is_start c
    || code c == code "_"
    || code c == code "."
    || code c == code ":"
    || code c == code "-"

abbrev pub text_size : String → ℕ
text_size String.[] = 0
text_size (String.◌∷◌ c s) = suc (text_size s)

-- `TOKEN.fullmatch`
unfoldable pub is_token : String → Bool
is_token String.[] = false
is_token (String.◌∷◌ c s) = is_start c && all_chars is_inner s && leb (text_size s) 31

abbrev pub all_tokens : List String → Bool
all_tokens [] = true
all_tokens (t ∷ ts) = is_token t && all_tokens ts

abbrev pub max_detail_tokens : ℕ
max_detail_tokens = 12

abbrev pub max_user_agent : ℕ
max_user_agent = 200

abbrev pub retention_seconds : ℕ
retention_seconds = 180 * 86_400

abbrev pub prune_interval : ℕ
prune_interval = 3_600

abbrev pub or_none : String → Option String
or_none s = if str_eq s "" then none else some s

-- `_detail_string`; the outer `none` where it asserts
unfoldable pub detail_string : List String → Option (Option String)
detail_string tokens =
    if leb (length tokens) max_detail_tokens && all_tokens tokens
    then some (or_none (join "," tokens))
    else none

-- `s[:n]`
abbrev pub cut : ℕ → String → String
cut zero s = String.[]
cut (suc n) String.[] = String.[]
cut (suc n) (String.◌∷◌ c s) = String.◌∷◌ c (cut n s)

-- The address and the agent that `request_context` keeps for the thread.
pub record Origin : Type 0 where
  pub source_ip : Option String
  pub user_agent : Option String

unfoldable pub request_context : Option String → Option String → Origin
request_context source_ip user_agent = record {
  source_ip = if given source_ip then source_ip else none;
  user_agent = or_none (cut max_user_agent (or_text user_agent ""));
}

-- `prune` of the rows before a time, and how many went
unfoldable pub prune_before : ℕ → Trail → ℕ × Trail
prune_before cutoff trail = (
  count (λ (e : TrailRow). ltb e.time cutoff) trail.events,
  record trail { events = select (λ e. not (ltb e.time cutoff)) trail.events },
)

-- `maybe_prune`
unfoldable pub maybe_prune : ℕ → Trail → ℕ × Trail
maybe_prune now trail =
    let pruned = prune_before (now - retention_seconds) (record trail { last_prune = now }) in
    if ltb now (trail.last_prune + prune_interval) then (0, trail) else pruned

abbrev pub insert_event : TrailRow → Trail → Trail
insert_event row trail = record trail { events = row ∷ trail.events }

-- `record`; `none` where it asserts
unfoldable pub record_event :
    String → String → String → List String → Origin → ℕ → Trail → Option Trail
record_event account action outcome detail origin now trail = elim (detail_string detail) [
  | none ↦ none
  | some text ↦
      let row : TrailRow = record {
        time = now;
        account = account;
        action = action;
        outcome = outcome;
        detail = text;
        source_ip = origin.source_ip;
        user_agent = origin.user_agent;
      } in
      if not (str_eq account "") && is_member action actions && is_token outcome
      then some ((maybe_prune now (insert_event row trail)).1)
      else none
]

-- `recent`
unfoldable pub recent_rows : ℕ → Option String → Trail → List TrailRow
recent_rows limit none trail = take limit trail.events
recent_rows limit (some account) trail =
    take limit (select (λ e. str_eq e.account account) trail.events)
