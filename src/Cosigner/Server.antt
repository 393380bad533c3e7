-- ===== src/Cosigner/Server.antt =====
-- cosigner/server.py: the endpoints, from a request's header and body to its response. Base64, the
-- keys of cosigner/keys.py and the texts of refusals are parameters.
pub mod Releases
mod Tests
use email_summary.Prelude.{
  ℕ, String, Bool, true, false, Option, none, some, List, [], ◌∷◌, str_eq, if◌then◌else◌,
}
use email_summary.Prelude.Text.{strip}
use email_summary.Cosigner.Audit.{Action, wrap, unwrap_and_sign, unwrap, sign_dpop, rewrap, Db}
use email_summary.Cosigner.Policy.{Switches, Limits, Clock, Verdict, Request, Refusal, authorize}
use email_summary.Cosigner.Policy.Targets.{TargetRefusal, allowed_target}
use email_summary.Attestation.{Allowlist, Libraries, QuoteVerdict, VerdictReason}
use email_summary.Attestation.Client.{Stored, Certificates, Setting, verify_client}

-- A value of the body: absent (or null), a text, or another value.
pub data Field : Type 0 where
  absent other : Field
  text : String → Field

-- What `_read_body` ends with: a status, a value that is not an object, or an object.
pub data Body : Type 0 where
  unread : ℕ → Body
  not_object : Body
  object : (String → Field) → Body

-- How a call of keys.py ends: NotConfigured, another exception, or a value.
pub data KeyCall {ℓ} (A : Type ℓ) : Type ℓ where
  not_configured broken : KeyCall A
  made : A → KeyCall A

pub record Keys : Type 0 where
  pub wrap_key : String → String → KeyCall String
  pub unwrap_key : String → String → KeyCall String
  pub rewrap_key : String → String → KeyCall String
  pub dpop_proof : String → String → Option String → KeyCall String

pub record Wire : Type 0 where
  pub unb64 : String → Option String
  pub token_endpoint : String
  pub describe : TargetRefusal → String
  pub explain : VerdictReason → String

-- The paths that `do_POST` knows, and another one.
pub data Endpoint : Type 0 where
  at_wrap at_unwrap_and_sign at_unwrap at_rewrap at_sign elsewhere : Endpoint

pub data Response : Type 0 where
  error : ℕ → Response
  refused : Refusal → Response
  outer inner proof : String → Response
  inner_and_proof : String → String → Response

-- A step of a handler: the status of a RequestError (500 for another exception), or a value.
pub data Step {ℓ} (A : Type ℓ) : Type ℓ where
  stop : ℕ → Step A
  go : A → Step A

infixl 5 ◌>>=◌
abbrev pub ◌>>=◌ {ℓ ℓ'} : {A : Type ℓ} {B : Type ℓ'} → Step A → (A → Step B) → Step B
stop code >>= next = stop code
go a >>= next = next a

abbrev pub value_in : Body → String → Step Field
value_in (unread code) name = stop code
value_in not_object name = stop 500
value_in (object fields) name = go (fields name)

abbrev pub required_text : Field → Step String
required_text (text s) = if str_eq s "" then stop 400 else go s
required_text absent = stop 400
required_text other = stop 400

abbrev pub optional_text : Field → Step (Option String)
optional_text absent = go none
optional_text other = stop 400
optional_text (text s) = if str_eq s "" then stop 400 else go (some s)

-- `field`
abbrev pub field : Body → String → Step String
field body name = value_in body name >>= required_text

abbrev pub optional_field : Body → String → Step (Option String)
optional_field body name = value_in body name >>= optional_text

abbrev pub decoded : Option String → Step String
decoded none = stop 400
decoded (some bytes) = go bytes

-- `binary_field`
abbrev pub binary_field : Wire → Body → String → Step String
binary_field wire body name = field body name >>= (λ s. decoded (wire.unb64 s))

-- What a handler asks `policy.authorize`, and what it answers once that allows it.
pub record Order : Type 0 where
  pub uid : Option String
  pub action : Action
  pub precheck : Option String
  pub release : Response

abbrev pub empty_text : String → String → Option String
empty_text message bytes = if str_eq bytes "" then some message else none

-- The response to a call of keys.py, outside `_open`.
abbrev pub keyed : (String → Response) → KeyCall String → Response
keyed reply not_configured = error 503
keyed reply broken = error 500
keyed reply (made s) = reply s

-- `_open`
abbrev pub after_open : (String → Response) → KeyCall String → Response
after_open reply (made s) = reply s
after_open reply not_configured = error 400
after_open reply broken = error 400

-- `wrap_request`
abbrev pub wrap_request : Wire → Keys → Body → Step Order
wrap_request wire keys body = do
  uid ← field body "uid"
  bytes ← binary_field wire body "inner"
  go (record {
    uid = some uid;
    action = wrap;
    precheck = empty_text "empty inner" bytes;
    release = keyed outer (keys.wrap_key uid bytes);
  })

-- `proof_request`
abbrev pub proof_request : Body → Step (String × String × Option String)
proof_request body = do
  htm ← field body "htm"
  htu ← field body "htu"
  nonce ← optional_field body "nonce"
  go (htm, htu, nonce)

abbrev pub target_precheck : Wire → String → String → Option String
target_precheck wire htm htu = elim (allowed_target wire.token_endpoint htm htu) [
  | none ↦ none
  | some refusal ↦ some (wire.describe refusal)
]

abbrev pub or_empty : Option String → String
or_empty none = ""
or_empty (some s) = s

abbrev pub first_text : Option String → Option String → Option String
first_text none next = next
first_text (some s) next = some s

-- `sign_request`
abbrev pub sign_request : Wire → Keys → Body → Step Order
sign_request wire keys body = do
  asked ← proof_request body
  uid ← optional_field body "uid"
  go (record {
    uid = some (or_empty uid);
    action = sign_dpop;
    precheck = target_precheck wire (asked.0) (asked.1);
    release = keyed proof (keys.dpop_proof (asked.0) (asked.1) (asked.2));
  })

-- `unwrap_request`
abbrev pub unwrap_request : Wire → Keys → Body → Step Order
unwrap_request wire keys body = do
  uid ← field body "uid"
  bytes ← binary_field wire body "outer"
  asked ← proof_request body
  go (record {
    uid = some uid;
    action = unwrap_and_sign;
    precheck =
        first_text (target_precheck wire (asked.0) (asked.1)) (empty_text "empty outer" bytes);
    release =
        after_open
          (λ key. keyed (inner_and_proof key) (keys.dpop_proof (asked.0) (asked.1) (asked.2)))
          (keys.unwrap_key uid bytes);
  })

-- `unwrap_data_request`
abbrev pub unwrap_data_request : Wire → Keys → Body → Step Order
unwrap_data_request wire keys body = do
  uid ← field body "uid"
  bytes ← binary_field wire body "outer"
  go (record {
    uid = some uid;
    action = unwrap;
    precheck = empty_text "empty outer" bytes;
    release = after_open inner (keys.unwrap_key uid bytes);
  })

-- `rewrap_request`
abbrev pub rewrap_request : Wire → Keys → Body → Step Order
rewrap_request wire keys body = do
  uid ← field body "uid"
  bytes ← binary_field wire body "outer"
  go (record {
    uid = some uid;
    action = rewrap;
    precheck = empty_text "empty outer" bytes;
    release = after_open outer (keys.rewrap_key uid bytes);
  })

unfoldable pub job_of : Wire → Keys → Endpoint → Body → Step Order
job_of wire keys at_wrap body = wrap_request wire keys body
job_of wire keys at_unwrap_and_sign body = unwrap_request wire keys body
job_of wire keys at_unwrap body = unwrap_data_request wire keys body
job_of wire keys at_rewrap body = rewrap_request wire keys body
job_of wire keys at_sign body = sign_request wire keys body
job_of wire keys elsewhere body = stop 404

-- The verdict as `policy.authorize` reads it.
abbrev pub verdict_of : Wire → QuoteVerdict → Verdict
verdict_of wire v = record {
  ok = v.ok;
  fingerprint = v.subject;
  reason = elim v.reason [ none ↦ none | some r ↦ some (wire.explain r) ];
  measurement = v.measurement;
  attested = v.attested;
}

-- What one request brings along, with what it reads of its surroundings.
pub record Post : Type 0 where
  pub endpoint : Endpoint
  pub cert_header : String
  pub body : Body
  pub setting : Setting
  pub switches : Switches
  pub clock : Clock

-- The process: the cache of verdicts, and the log.
pub record Process : Type 0 where
  pub cache : List Stored
  pub log : Db

pub record Box : Type 0 where
  pub libraries : Libraries
  pub certificates : Certificates
  pub allowlist : Allowlist
  pub wire : Wire
  pub keys : Keys
  pub limits : Limits

-- `client_cert`
abbrev pub client_cert : Wire → String → Option String
client_cert wire header = if str_eq (strip header) "" then some "" else wire.unb64 (strip header)

-- The end of a handler: the policy's decision, and only then the key.
unfoldable pub answer : Limits → Post → Verdict → Order → Db → Response × Db
answer limits post verdict job log =
    let req : Request = record {
      uid = job.uid;
      action = job.action;
      verdict = verdict;
      precheck = job.precheck;
    } in
    let decided = authorize post.switches limits post.clock req log in
    (elim (decided.0) [ some refusal ↦ refused refusal | none ↦ job.release ], decided.1)

-- `do_POST` once the certificate has its verdict.
unfoldable pub handle_job : Box → Post → Verdict → Db → Response × Db
handle_job box post verdict log = elim (job_of box.wire box.keys post.endpoint post.body) [
  | stop code ↦ (error code, log)
  | go job ↦ answer box.limits post verdict job log
]

-- `do_POST` with the certificate
unfoldable pub handle_cert : Box → Post → String → Process → Response × Process
handle_cert box post der st =
    elim (verify_client box.libraries box.certificates box.allowlist post.setting der st.cache) [
      | none ↦ (error 500, st)
      | some p ↦
          let done = handle_job box post (verdict_of box.wire (p.0)) st.log in
          (done.0, record { cache = p.1; log = done.1 })
    ]

abbrev pub is_known : Endpoint → Bool
is_known elsewhere = false
is_known endpoint = true

-- `do_POST`
unfoldable pub do_post : Box → Post → Process → Response × Process
do_post box post st = elim (client_cert box.wire post.cert_header) [
  | none ↦ (error (if is_known post.endpoint then 400 else 404), st)
  | some der ↦ if is_known post.endpoint then handle_cert box post der st else (error 404, st)
]

-- Requests one after another, with their responses.
unfoldable pub serve : Box → List Post → Process → List Response × Process
serve box [] st = ([], st)
serve box (post ∷ posts) st =
    let first = do_post box post st in
    let rest = serve box posts (first.1) in (first.0 ∷ rest.0, rest.1)
