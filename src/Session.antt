-- ===== src/Session.antt =====
-- frontend/session.py: signed cookies. HMAC and the label of a key are parameters, since they are
-- the hash library's; `backend/secrets.py` gives the two keys.
pub mod Signed
pub mod Rotated
pub mod Pending
mod Tests
use Prim.Native.String.{◌++◌}
use Prim.Native.String
use email_summary.Prelude.{
  ℕ, ◌+◌, String, Bool, true, false, not, ◌&&◌, ◌||◌, Option, none, some, List, [], ◌∷◌, str_eq,
  if◌then◌else◌, is_some, ltb, take, select, some_pass,
}
use email_summary.Prelude.Split.{split, join}
use email_summary.Accounts.Store.{given, or_text, same_text}
use email_summary.Prelude.Decimal.{show, read}

-- `hmac.new(key, message, sha256).hexdigest()`, and the digest of `secrets.fingerprint(key)`
pub record Crypto : Type 0 where
  pub mac : String → String → String
  pub kid : String → String

-- `_keyring()`: the current key and the outgoing one, each with its kid.
pub record Ring : Type 0 where
  pub kid : String
  pub key : String
  pub previous : Option (String × String)

abbrev pub with_previous : Crypto → String → Option String → Ring
with_previous crypto current none = record {
  kid = crypto.kid current;
  key = current;
  previous = none;
}
with_previous crypto current (some old) = record {
  kid = crypto.kid current;
  key = current;
  previous = if str_eq old "" || str_eq old current then none else some (crypto.kid old, old);
}

abbrev pub has_two_kids : Ring → Bool
has_two_kids ring = elim ring.previous [ none ↦ true | some p ↦ not (str_eq ring.kid (p.0)) ]

-- `_keyring`; `none` where it raises
unfoldable pub keyring : Crypto → String → Option String → Option Ring
keyring crypto current previous =
    let ring = with_previous crypto current previous in
    if not (str_eq current "") && has_two_kids ring then some ring else none

-- `_key_for`: of two keys with the kid the later one; a kid that is not ASCII, on which `compare_digest`
-- raises, is none of them
abbrev pub key_for : Ring → String → Option String
key_for ring kid =
    let first = if str_eq ring.kid kid then some ring.key else none in
    elim ring.previous [ none ↦ first | some p ↦ if str_eq (p.0) kid then some (p.1) else first ]

-- `f"{a}:{b}"`
abbrev pub colon : String → String → String
colon a b = a ++ String.◌∷◌ ":" b

abbrev pub payload : String → String → ℕ → String
payload kid value iat = colon kid (colon value (show iat))

-- `_mac`
abbrev pub mac_of : Crypto → String → String → String → String
mac_of crypto key purpose message = crypto.mac key (colon purpose message)

-- `_signed`
unfoldable pub signed : Crypto → Ring → String → String → ℕ → String
signed crypto ring purpose value iat =
    colon (payload ring.kid value iat) (mac_of crypto ring.key purpose (payload ring.kid value iat))

abbrev pub pair_of : String → List String → Option (List String × String × String)
pair_of x [] = none
pair_of x (y ∷ []) = some ([], x, y)
pair_of x (y ∷ z ∷ rest) = none

-- The list before the last two items, and these.
abbrev pub last_two : List String → Option (List String × String × String)
last_two [] = none
last_two (x ∷ rest) = elim (last_two rest) [
  | none ↦ pair_of x rest
  | some p ↦ some (x ∷ p.0, p.1, p.2)
]

pub record Fields : Type 0 where
  pub kid : String
  pub value : String
  pub stamp : String
  pub sig : String

-- `parts[0]`, `":".join(parts[1:-2])`, `parts[-2]` and `parts[-1]` of at least four parts
abbrev pub fields_of : List String → Option Fields
fields_of [] = none
fields_of (kid ∷ rest) = elim (last_two rest) [
  | none ↦ none
  | some p ↦ elim p.0 [
    | [] ↦ none
    | v ∷ vs ↦ some (record { kid = kid; value = join ":" (v ∷ vs); stamp = p.1; sig = p.2 })
  ]
]

abbrev pub or_current : Option String → Ring → String
or_current none ring = ring.key
or_current (some key) ring = key

-- The comparison of `_open_signed`, under the key that the kid names; `none` also where
-- `compare_digest` raises, on a signature that is not ASCII and so is none of ours.
unfoldable pub check_sig : Crypto → Ring → String → Fields → ℕ → Option String
check_sig crypto ring purpose f iat =
    let key = key_for ring f.kid in
    let same =
      str_eq f.sig (mac_of crypto (or_current key ring) purpose (payload f.kid f.value iat)) in
    if not (is_some key) || not same then none else some f.value

unfoldable pub open_fields : Crypto → Ring → ℕ → String → ℕ → Fields → Option String
open_fields crypto ring now purpose ttl f = elim (read f.stamp) [
  | none ↦ none
  | some iat ↦ if ltb (iat + ttl) now then none else check_sig crypto ring purpose f iat
]

-- `_open_signed`; a time before 1970 is too old, and so is not read
unfoldable pub open_signed : Crypto → Ring → ℕ → String → String → ℕ → Option String
open_signed crypto ring now purpose raw ttl =
    let opened : Option String = elim (fields_of (split ":" raw)) [
      | none ↦ none
      | some f ↦ open_fields crypto ring now purpose ttl f
    ] in
    if str_eq raw "" then none else opened

abbrev pub session_ttl : ℕ
session_ttl = 2_592_000

-- `csrf_token`
abbrev pub csrf_token : Crypto → Ring → ℕ → String → String
csrf_token crypto ring now account_id = signed crypto ring "csrf" account_id now

-- `csrf_ok`; the texts are ASCII, as `compare_digest` wants them
unfoldable pub csrf_ok : Crypto → Ring → ℕ → String → String → Bool
csrf_ok crypto ring now token account_id =
    if str_eq token "" || str_eq account_id ""
    then false
    else elim (open_signed crypto ring now "csrf" token session_ttl) [
      | none ↦ false
      | some s ↦ str_eq s account_id
    ]

-- `PendingValues`: the cookie's purpose and the lifetime of a value
pub record Kept : Type 0 where
  pub purpose : String
  pub ttl : ℕ

abbrev pub max_pending : ℕ
max_pending = 3

-- An entry that `live` keeps: signed by us, and its value not empty.
abbrev pub is_live : Crypto → Ring → ℕ → Kept → String → Bool
is_live crypto ring now kept entry = given (open_signed crypto ring now kept.purpose entry kept.ttl)

-- `live`, on the cookie's value; the empty text where the browser sent none
unfoldable pub live : Crypto → Ring → ℕ → Kept → String → List String
live crypto ring now kept cookie =
    select (λ c. not (str_eq c "") && is_live crypto ring now kept c) (split "|" cookie)

-- The value that `_render` sets
unfoldable pub render : List String → String
render pending = join "|" (take max_pending pending)

-- `with_entry`
unfoldable pub with_entry : Crypto → Ring → ℕ → Kept → String → String → String
with_entry crypto ring now kept entry cookie =
    render (entry ∷ select (λ e. not (str_eq e entry)) (live crypto ring now kept cookie))

-- `without`
unfoldable pub without_entry : Crypto → Ring → ℕ → Kept → String → String → String
without_entry crypto ring now kept entry cookie =
    render (select (λ e. not (str_eq e entry)) (live crypto ring now kept cookie))

abbrev pub states : Kept
states = record { purpose = "oauth-state"; ttl = 1_800 }

abbrev pub checkouts : Kept
checkouts = record { purpose = "checkout"; ttl = 3_600 }

-- `state_is_ours`; the texts are ASCII, as `compare_digest` wants them
unfoldable pub state_is_ours : Crypto → Ring → ℕ → String → String → Bool
state_is_ours crypto ring now state cookie =
    not (str_eq state "")
    && is_live crypto ring now states state
    && some_pass (λ known. str_eq state known) (live crypto ring now states cookie)

-- The entry stands for the checkout.
abbrev pub names_checkout : Crypto → Ring → ℕ → String → String → Bool
names_checkout crypto ring now checkout_id entry =
    str_eq (or_text (open_signed crypto ring now checkouts.purpose entry checkouts.ttl) "")
      checkout_id

-- `checkout_is_ours`
unfoldable pub checkout_is_ours : Crypto → Ring → ℕ → String → String → Bool
checkout_is_ours crypto ring now checkout_id cookie =
    not (str_eq checkout_id "")
    && some_pass (names_checkout crypto ring now checkout_id)
        (live crypto ring now checkouts cookie)

-- `checkout_cookie`, at the time `now`
unfoldable pub checkout_cookie : Crypto → Ring → ℕ → String → String → String
checkout_cookie crypto ring now checkout_id cookie =
    with_entry crypto ring now checkouts (signed crypto ring checkouts.purpose checkout_id now)
      cookie

-- The first entry that passes the test.
abbrev pub first_passing : (String → Bool) → List String → Option String
first_passing p [] = none
first_passing p (x ∷ xs) = if p x then some x else first_passing p xs

-- `checkout_cookie_without`
unfoldable pub checkout_cookie_without : Crypto → Ring → ℕ → String → String → Option String
checkout_cookie_without crypto ring now checkout_id cookie =
    elim (first_passing
      (λ e. same_text (open_signed crypto ring now checkouts.purpose e checkouts.ttl) checkout_id)
      (live crypto ring now checkouts cookie)) [
        | none ↦ none
        | some entry ↦ some (without_entry crypto ring now checkouts entry cookie)
      ]
