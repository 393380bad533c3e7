-- ===== src/Egress.antt =====
-- backend/egress.py: which destinations the egress proxy opens a connection to. Reading the file and
-- the JSON in it are the library's, so the file is what they make of it.
pub mod Proxy
pub mod Authority
pub mod Tunnels
pub mod Opens
mod Tests
use Prim.Native.Char.{Char, code}
use Prim.Native.String
use email_summary.Prelude.{
  ℕ, ◌+◌, ◌-◌, String, Bool, true, false, not, ◌&&◌, ◌||◌, Option, none, some, List, [], ◌∷◌, ◌++◌,
  map, str_eq, if◌then◌else◌, leb, ◌==◌, select,
}
use email_summary.Prelude.Sets.{is_member}
use email_summary.Prelude.Split.{all_chars, is_free, split}
use email_summary.Prelude.Decimal.{is_digit, read}
use email_summary.Prelude.Text.{strip, lower, norm}

-- An item of the list `hosts`: a text, or another value.
pub data Item : Type 0 where
  text : String → Item
  other : Item

-- The allowlist on disk. `no_list`: not an object, or its `hosts` is not a list.
pub data File : Type 0 where
  unreadable not_json no_list : File
  listed : List Item → File

-- The check of one host, and the hosts after it.
abbrev pub onto_listed : Item → Option (List String) → Option (List String)
onto_listed other rest = none
onto_listed (text host) none = none
onto_listed (text host) (some rest) =
    if str_eq host "" || not (str_eq host (norm host)) then none else some (host ∷ rest)

abbrev pub listed_hosts : List Item → Option (List String)
listed_hosts [] = some []
listed_hosts (item ∷ items) = onto_listed item (listed_hosts items)

-- `_listed`; `none` where it raises AllowlistInvalid
unfoldable pub listed_in : File → Option (List String)
listed_in unreadable = none
listed_in not_json = none
listed_in no_list = none
listed_in (listed []) = none
listed_in (listed (item ∷ items)) = listed_hosts (item ∷ items)

-- `_extra_hosts`, from the value of the environment variable
unfoldable pub extra_hosts : String → List String
extra_hosts raw = map norm (select (λ h. not (str_eq (strip h) "")) (split "," raw))

-- `hosts`
unfoldable pub hosts : File → String → Option (List String)
hosts file extra = elim (listed_in file) [
  | none ↦ none
  | some found ↦ some (found ++ extra_hosts extra)
]

-- `s.rstrip(chars)`, with the test for the characters
unfoldable pub trim_end : (Char → Bool) → String → String
trim_end p String.[] = String.[]
trim_end p (String.◌∷◌ c s) =
    let rest = trim_end p s in if p c && str_eq rest "" then String.[] else String.◌∷◌ c rest

-- The two parts of `s.rpartition(":")`; `none` where there is no colon
unfoldable pub rpartition : String → Option (String × String)
rpartition String.[] = none
rpartition (String.◌∷◌ c s) = elim (rpartition s) [
  | some p ↦ some (String.◌∷◌ c (p.0), p.1)
  | none ↦ if code c == code ":" then some (String.[], s) else none
]

-- `port.isdigit()`
abbrev pub is_number : String → Bool
is_number s = not (str_eq s "") && all_chars is_digit s

abbrev pub is_port : ℕ → Bool
is_port n = leb 1 n && leb n 65_535

abbrev pub is_dot : Char → Bool
is_dot c = code c == code "."

abbrev pub port_of : String → Option ℕ
port_of s = if is_number s then read s else none

abbrev pub with_port : String → Option ℕ → Option (String × ℕ)
with_port host none = none
with_port host (some n) = if is_port n then some (lower (trim_end is_dot host), n) else none

-- `split_authority`; `none` where it raises ValueError
unfoldable pub split_authority : String → Option (String × ℕ)
split_authority target =
    let parts : Option (String × ℕ) = elim (rpartition target) [
      | none ↦ none
      | some p ↦ if str_eq (p.0) "" then none else with_port (p.0) (port_of (p.1))
    ] in
    if is_free "/" target && is_free "@" target && is_free "[" target && is_free "]" target
    then parts
    else none

pub data EgressRefusal : Type 0 where
  other_port : ℕ → EgressRefusal
  not_listed : String → EgressRefusal

-- What `refusal` ends with: AllowlistInvalid or AssertionError, a reason, or none.
pub data Permission : Type 0 where
  raises : Permission
  refused : EgressRefusal → Permission
  allowed : Permission

abbrev pub connect_port : ℕ
connect_port = 443

-- `refusal`
unfoldable pub refusal : File → String → String → ℕ → Permission
refusal file extra host port =
    let listed : Permission = elim (hosts file extra) [
      | none ↦ raises
      | some found ↦ if is_member host found then allowed else refused (not_listed host)
    ] in
    if str_eq host ""
    then raises
    else if not (port == connect_port)
    then refused (other_port port)
    else listed
