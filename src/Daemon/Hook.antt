-- ===== src/Daemon/Hook.antt =====
-- backend/daemons/gmail_hook_server.py: a push of Gmail, from its headers to the wake queue. Google's
-- JWT library, the download of the certificates and the parser of the body are parameters.
pub mod Wakes
mod Tests
use Prim.Native.String
use email_summary.Prelude.{
  ℕ, zero, suc, ◌+◌, ◌*◌, String, Bool, true, false, not, ◌&&◌, ◌||◌, Option, none, some, List, [],
  ◌∷◌, str_eq, if◌then◌else◌, leb, ltb,
}
use email_summary.Prelude.Sets.{is_member}
use email_summary.Prelude.Split.{split, all_chars}
use email_summary.Prelude.Text.{strip, lower}
use email_summary.Prelude.Decimal.{is_digit, read}
use email_summary.Accounts.Store.{given, or_text, same_text}
use email_summary.Daemon.WakeQueue.{Woken, wake}

pub record Claims : Type 0 where
  pub iss : Option String
  pub aud : Option String
  pub email : Option String
  pub email_verified : Option Bool

-- What `jwt.decode` gives: an exception, a value that is not an object, or the claims.
pub data Decoded : Type 0 where
  rejected not_claims : Decoded
  claims : Claims → Decoded

-- A certificate by its key id.
abbrev pub Certs : Type 0
Certs = List (String × String)

-- What an answer of the certificates' endpoint is: the set, and its Cache-Control.
pub record Answered : Type 0 where
  pub certs : Certs
  pub cache_control : String

-- `decode_header(token).get("kid")`, `none` where it raises; `decode` under certificates; and the
-- address in a body, `none` where it does not parse
pub record Google : Type 0 where
  pub decode_kid : String → Option (Option String)
  pub decode : String → Certs → Decoded
  pub address_in : String → Option String

-- The constants that the environment may name.
pub record HookConfig : Type 0 where
  pub audience : String
  pub service_account : String

abbrev pub issuers : List String
issuers = "https://accounts.google.com" ∷ "accounts.google.com" ∷ []

abbrev pub is_true : Option Bool → Bool
is_true none = false
is_true (some b) = b

-- `check_claims`: whether it returns None
unfoldable pub claims_pass : HookConfig → Claims → Bool
claims_pass config c =
    given c.iss
    && is_member (or_text c.iss "") issuers
    && same_text c.aud config.audience
    && same_text c.email config.service_account
    && is_true c.email_verified

-- `SigningCerts`, with how many downloads were tried.
pub record CertCache : Type 0 where
  pub certs : Certs
  pub fetched_at : ℕ
  pub expires : ℕ
  pub tries : ℕ

abbrev pub certs_ttl_min : ℕ
certs_ttl_min = 300

abbrev pub certs_ttl_max : ℕ
certs_ttl_max = 21_600

abbrev pub refetch_floor : ℕ
refetch_floor = 60

abbrev pub clamp : ℕ → ℕ
clamp n =
    if leb n certs_ttl_min then certs_ttl_min else if leb certs_ttl_max n then certs_ttl_max else n

-- `part.partition("=")`, without the sign
abbrev pub partition_at : String → String × String
partition_at String.[] = ("", "")
partition_at (String.◌∷◌ c s) =
    let rest = partition_at s in
    if str_eq (String.◌∷◌ c String.[]) "=" then ("", s) else (String.◌∷◌ c (rest.0), rest.1)

abbrev pub number_in : String → Option ℕ
number_in s = if not (str_eq s "") && all_chars is_digit s then read s else none

abbrev pub or_lifetime : Option ℕ → ℕ → ℕ
or_lifetime none rest = rest
or_lifetime (some n) rest = clamp n

-- The loop of `cache_lifetime`
abbrev pub lifetime_in : List String → ℕ
lifetime_in [] = certs_ttl_min
lifetime_in (part ∷ parts) =
    let rest = lifetime_in parts in
    let pair = partition_at (strip part) in
    if str_eq (lower (pair.0)) "max-age" then or_lifetime (number_in (pair.1)) rest else rest

-- `cache_lifetime`
unfoldable pub cache_lifetime : String → ℕ
cache_lifetime header = lifetime_in (split "," header)

abbrev pub names_kid : String → Certs → Bool
names_kid kid [] = false
names_kid kid (c ∷ certs) = str_eq (c.0) kid || names_kid kid certs

-- The cache after a download that was tried; `none` where it raised
unfoldable pub refresh : ℕ → Option Answered → CertCache → Option CertCache
refresh now none cache = none
refresh now (some answer) cache = elim answer.certs [
  | [] ↦ none
  | c ∷ cs ↦ some (record {
    certs = c ∷ cs;
    fetched_at = now;
    expires = now + cache_lifetime answer.cache_control;
    tries = suc cache.tries;
  })
]

abbrev pub tried : CertCache → CertCache
tried cache = record cache { tries = suc cache.tries }

-- `_may_refetch`
abbrev pub may_refetch : Option String → ℕ → CertCache → Bool
may_refetch none now cache = false
may_refetch (some kid) now cache =
    not (names_kid kid cache.certs) && leb (cache.fetched_at + refetch_floor) now

abbrev pub or_kept : Option CertCache → CertCache → CertCache
or_kept none cache = cache
or_kept (some fresh) cache = fresh

abbrev pub answer_certs : CertCache → Option Certs × CertCache
answer_certs cache = elim cache.certs [ [] ↦ (none, cache) | c ∷ cs ↦ (some (c ∷ cs), cache) ]

-- `for_kid`: the certificates, `none` where it raises; and the cache after it
unfoldable pub for_kid : ℕ → Option Answered → Option String → CertCache → Option Certs × CertCache
for_kid now download kid cache =
    let renewed : Option Certs × CertCache = elim (refresh now download cache) [
      | none ↦ (none, tried cache)
      | some fresh ↦ answer_certs fresh
    ] in
    if leb cache.expires now
    then renewed
    else if may_refetch kid now cache
    then answer_certs (or_kept (refresh now download cache) (tried cache))
    else answer_certs cache

-- `verify_jwt` with the certificates: the status of its HookError, or the claims
unfoldable pub check_token : Google → HookConfig → String → Option Certs → Option Claims × ℕ
check_token google config token none = (none, 503)
check_token google config token (some certs) = elim (google.decode token certs) [
  | rejected ↦ (none, 401)
  | not_claims ↦ (none, 401)
  | claims c ↦ if claims_pass config c then (some c, 204) else (none, 401)
]

-- `hdr[7:]` and `hdr[:7]`
abbrev pub skip : ℕ → String → String
skip zero s = s
skip (suc n) String.[] = String.[]
skip (suc n) (String.◌∷◌ c s) = skip n s

abbrev pub front : ℕ → String → String
front zero s = String.[]
front (suc n) String.[] = String.[]
front (suc n) (String.◌∷◌ c s) = String.◌∷◌ c (front n s)

-- The token of the header; `none` where it does not start with `Bearer `
unfoldable pub bearer : String → Option String
bearer header =
    if str_eq (lower (front 7 header)) "bearer " then some (strip (skip 7 header)) else none

-- `Content-Length`: not a number, negative, or a number
pub data Length : Type 0 where
  bad_length negative : Length
  bytes : ℕ → Length

abbrev pub max_body : ℕ
max_body = 256 * 1_024

pub record Push : Type 0 where
  pub authorization : String
  pub length : Length
  pub body : String

-- `route_push`, with the queue after it
unfoldable pub route_push : Google → String → List Woken → ℕ × List Woken
route_push google body spool = elim (google.address_in body) [
  | none ↦ (400, spool)
  | some email ↦ if str_eq email "" then (400, spool) else (204, wake email spool)
]

-- `body = self.rfile.read(length) if length > 0 else b""`
abbrev pub body_of : ℕ → Push → String
body_of n push = if leb n 0 then "" else push.body

unfoldable pub read_and_route : Google → Push → List Woken → ℕ × List Woken
read_and_route google push spool = elim push.length [
  | bad_length ↦ (400, spool)
  | negative ↦ (413, spool)
  | bytes n ↦ if ltb max_body n then (413, spool) else route_push google (body_of n push) spool
]

-- The process: the certificates and the queue.
pub record HookState : Type 0 where
  pub cache : CertCache
  pub spool : List Woken

-- `do_POST` of a token whose header decodes
unfoldable pub handle_token :
    Google
    → HookConfig
    → ℕ
    → Option Answered
    → Push
    → String
    → Option String
    → HookState
    → ℕ × HookState
handle_token google config now download push token kid st =
    let served = for_kid now download kid st.cache in
    let checked = check_token google config token (served.0) in
    let routed = read_and_route google push st.spool in
    elim (checked.0) [
      | none ↦ (checked.1, record st { cache = served.1 })
      | some c ↦ (routed.0, record { cache = served.1; spool = routed.1 })
    ]

-- `do_POST`
unfoldable pub hook_post :
    Google → HookConfig → ℕ → Option Answered → Push → HookState → ℕ × HookState
hook_post google config now download push st = elim (bearer push.authorization) [
  | none ↦ (401, st)
  | some token ↦ elim (google.decode_kid token) [
    | none ↦ (401, st)
    | some kid ↦ handle_token google config now download push token kid st
  ]
]
