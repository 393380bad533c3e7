-- ===== src/Egress/Proxy.antt =====
-- backend/daemons/egress_proxy.py: one CONNECT request, from its lines to the tunnel. The resolver,
-- the classes of an address (`ipaddress`) and whether an address answers are parameters.
use Prim.Native.Char.{Char, code}
use email_summary.Prelude.{
  ℕ, zero, suc, String, Bool, not, ◌||◌, Option, none, some, List, [], ◌∷◌, str_eq, if◌then◌else◌,
  ltb, ◌==◌,
}
use email_summary.Prelude.Text.{is_space}
use email_summary.Egress.{File, raises, refused, allowed, refusal, split_authority, trim_end}

-- The classes that `ipaddress` puts an address in.
pub record Ip : Type 0 where
  pub is_private : Bool
  pub is_loopback : Bool
  pub is_link_local : Bool
  pub is_multicast : Bool
  pub is_reserved : Bool
  pub is_unspecified : Bool

-- How `getaddrinfo` ends: gaierror, UnicodeError, or the addresses.
pub data Resolved : Type 0 where
  unresolved unencodable : Resolved
  resolves_to : List String → Resolved

-- `getaddrinfo`; `ip_address`, `none` where it raises; and `connect`
pub record Network : Type 0 where
  pub resolve : String → ℕ → Resolved
  pub ip_address : String → Option Ip
  pub connects : String → ℕ → Bool

-- What the client's socket gives; after the last of them it is closed.
pub data Received : Type 0 where
  line : String → Received
  times_out : Received

-- How a request ends. `fails` is OSError or ValueError, `crashed` an exception that `handle` does not
-- catch.
pub data Ending {ℓ} (A : Type ℓ) : Type ℓ where
  done : A → Ending A
  denied : ℕ → Ending A
  fails : Ending A
  crashed : Ending A

infixl 5 ◌>>=◌
abbrev pub ◌>>=◌ {ℓ ℓ'} : {A : Type ℓ} {B : Type ℓ'} → Ending A → (A → Ending B) → Ending B
done a >>= next = next a
denied status >>= next = denied status
fails >>= next = fails
crashed >>= next = crashed

abbrev pub max_line_bytes : ℕ
max_line_bytes = 4_096

abbrev pub max_header_lines : ℕ
max_header_lines = 64

abbrev pub line_size : String → ℕ
line_size String.[] = 0
line_size (String.◌∷◌ c s) = suc (line_size s)

abbrev pub is_line_end : Char → Bool
is_line_end c = code c == 13 || code c == 10

-- `_line`, with what is left to read
unfoldable pub read_line : List Received → Ending (String × List Received)
read_line [] = denied 400
read_line (times_out ∷ rest) = fails
read_line (line raw ∷ rest) =
    if ltb max_line_bytes (line_size raw)
    then denied 431
    else if str_eq raw ""
    then denied 400
    else done (trim_end is_line_end raw, rest)

-- The space characters of `str.split` among those of latin-1.
abbrev pub is_blank : Char → Bool
is_blank c = is_space c || code c == 133 || code c == 160

-- The word that is being read, in front of the words after it.
abbrev pub onto_words : String → List String → List String
onto_words word words = if str_eq word "" then words else word ∷ words

-- The first word and the words after it; the first is empty where the text starts with a blank.
abbrev pub first_word : String → String × List String
first_word String.[] = ("", [])
first_word (String.◌∷◌ c s) =
    let rest = first_word s in
    if is_blank c then ("", onto_words (rest.0) (rest.1)) else (String.◌∷◌ c (rest.0), rest.1)

-- `s.split()`
unfoldable pub words : String → List String
words s = onto_words ((first_word s).0) ((first_word s).1)

-- The loop over the header lines, with so many still allowed.
unfoldable pub skip_headers : ℕ → List Received → Ending (Unit {0})
skip_headers zero input = denied 431
skip_headers (suc n) input = do
  read ← read_line input
  let more = skip_headers n (read.1)
  if str_eq (read.0) "" then done tt else more

-- The target of the request line.
abbrev pub connect_target : List String → Ending String
connect_target (method ∷ target ∷ version ∷ []) =
    if str_eq method "CONNECT" then done target else denied 405
connect_target parts = denied 400

abbrev pub authority : String → Ending (String × ℕ)
authority target = elim (split_authority target) [ none ↦ fails | some p ↦ done p ]

-- `_request`
unfoldable pub request : List Received → Ending (String × ℕ)
request input = do
  read ← read_line input
  target ← connect_target (words (read.0))
  headers ← skip_headers max_header_lines (read.1)
  authority target

-- `_routable`, of an address that parses
abbrev pub is_routable : Ip → Bool
is_routable ip = not (
    ip.is_private || ip.is_loopback || ip.is_link_local || ip.is_multicast || ip.is_reserved
    || ip.is_unspecified)

-- The check of every candidate.
unfoldable pub check_all : Network → List String → Ending (Unit {0})
check_all net [] = done tt
check_all net (address ∷ addresses) =
    let rest = check_all net addresses in
    elim (net.ip_address address) [
      | none ↦ fails
      | some ip ↦ if is_routable ip then rest else denied 403
    ]

-- The first address that answers.
unfoldable pub first_connected : Network → ℕ → List String → Ending String
first_connected net port [] = denied 502
first_connected net port (address ∷ addresses) =
    if net.connects address port then done address else first_connected net port addresses

-- `_connect`; the address of the socket it returns
unfoldable pub connect : Network → String → ℕ → Ending String
connect net host port = elim (net.resolve host port) [
  | unresolved ↦ denied 502
  | unencodable ↦ fails
  | resolves_to [] ↦ crashed
  | resolves_to (address ∷ addresses) ↦
      check_all net (address ∷ addresses)
      >>= (λ checked. first_connected net port (address ∷ addresses))
]

-- `_open`
unfoldable pub open_upstream : File → String → Network → String → ℕ → Ending String
open_upstream file extra net host port = elim (refusal file extra host port) [
  | raises ↦ crashed
  | refused reason ↦ denied 403
  | allowed ↦ connect net host port
]

pub record Tunnel : Type 0 where
  pub host : String
  pub port : ℕ
  pub address : String

-- `handle`, up to the tunnel
unfoldable pub handle : File → String → Network → List Received → Ending Tunnel
handle file extra net input = do
  asked ← request input
  address ← open_upstream file extra net (asked.0) (asked.1)
  done (record { host = asked.0; port = asked.1; address = address })
