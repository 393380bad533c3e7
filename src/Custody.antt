-- ===== src/Custody.antt =====
-- backend/custody/keyring.py with seal_dek and open_dek of wrapping.py: one data key for each account,
-- and the files under it. AES-GCM, the derivation of the enclave's key and the co-signer's answers are
-- parameters; so are what `os.urandom` gives and the clock. A byte is a number.
mod Holdings
pub mod Files
pub mod Records
pub mod Opened
pub mod Keeping
pub mod Documents
mod Tests
pub use Holdings.*
use Prim.Native.Char.{Char, code}
use Prim.Native.String.{◌++◌ as join_text}
use Prim.Native.String
use email_summary.Prelude.{
  ℕ, zero, suc, ◌+◌, ◌-◌, String, Bool, true, false, not, ◌&&◌, ◌||◌, Option, none, some, List, [],
  ◌∷◌, ◌++◌, str_eq, if◌then◌else◌, is_some, leb, ltb, ◌==◌, take, length, select,
}
use email_summary.Prelude.Split.{is_free}
use email_summary.Accounts.Store.{State, Result, err, ok, given, or_text}
use email_summary.Accounts.Lookup.{account_for_email}
use email_summary.Accounts.Register.{is_handle}

-- `encode_record`; `none` where it asserts
unfoldable pub encode_record : ℕ → List ℕ → Option (List ℕ)
encode_record version [] = none
encode_record version (b ∷ outer) =
    if leb version 255 then some (76 ∷ 76 ∷ 68 ∷ 75 ∷ 1 ∷ version ∷ b ∷ outer) else none

abbrev pub is_header : ℕ → ℕ → ℕ → ℕ → ℕ → Bool
is_header m0 m1 m2 m3 version = m0 == 76 && m1 == 76 && m2 == 68 && m3 == 75 && version == 1

-- `decode_record`; `none` where it raises BadRecord
unfoldable pub decode_record : List ℕ → Option (ℕ × List ℕ)
decode_record (m0 ∷ m1 ∷ m2 ∷ m3 ∷ record_version ∷ version ∷ b ∷ outer) =
    if is_header m0 m1 m2 m3 record_version then some (version, b ∷ outer) else none
decode_record blob = none

abbrev pub key_of : String → List KeyFile → Option (List ℕ)
key_of uid [] = none
key_of uid (k ∷ ks) = if str_eq k.uid uid then some k.blob else key_of uid ks

-- `has_key`
abbrev pub has_key : String → Shelf → Bool
has_key uid s = is_some (key_of uid s.keys)

abbrev pub without_key : String → List KeyFile → List KeyFile
without_key uid = select (λ k. not (str_eq k.uid uid))

-- `store_record`
unfoldable pub store_record : String → List ℕ → ℕ → Op (Unit {0})
store_record uid outer version s = elim (encode_record version outer) [
  | none ↦ (ended assertion, s)
  | some blob ↦
      (done tt, record s { keys = record { uid = uid; blob = blob } ∷ without_key uid s.keys })
]

-- `load_record`
unfoldable pub load_record : String → Op (ℕ × List ℕ)
load_record uid s = elim (key_of uid s.keys) [
  | none ↦ (ended no_data_key, s)
  | some blob ↦ elim (decode_record blob) [ none ↦ (ended no_data_key, s) | some p ↦ (done p, s) ]
]

abbrev pub warm_of : String → List Warm → Option Warm
warm_of uid [] = none
warm_of uid (w ∷ ws) = if str_eq w.uid uid then some w else warm_of uid ws

abbrev pub without_warm : String → List Warm → List Warm
without_warm uid = select (λ w. not (str_eq w.uid uid))

-- `_dek_cache[uid] = (dek, until)`
abbrev pub keep_warm : String → List ℕ → ℕ → Shelf → Shelf
keep_warm uid dek until s = record s {
  cache = record { uid = uid; dek = dek; until = until } ∷ without_warm uid s.cache;
}

-- `forget`, of one account
abbrev pub forget_key : String → Shelf → Shelf
forget_key uid s = record s { cache = without_warm uid s.cache }

-- `destroy`, and whether there was a key
unfoldable pub destroy : String → Shelf → Bool × Shelf
destroy uid s = (has_key uid s, record (forget_key uid s) { keys = without_key uid s.keys })

abbrev pub require_handle : String → Op (Unit {0})
require_handle handle = if is_handle handle then give tt else fail invalid_account

-- The answer of the co-signer to a call, which is written down.
abbrev pub ask : {A : Type 0} → Call → (List Call → Option A) → Op A
ask call reply s = elim (reply s.calls) [
  | none ↦ (ended custody, record s { calls = call ∷ s.calls })
  | some a ↦ (done a, record s { calls = call ∷ s.calls })
]

-- `seal_dek`, with its nonce
abbrev pub seal_dek : Outside → String → List ℕ → List ℕ → List ℕ
seal_dek out handle dek nonce =
    nonce ++ out.aead_encrypt (out.inner_key handle key_version) nonce dek handle

-- `open_dek`; `none` where it raises CustodyError
unfoldable pub open_dek : Outside → String → List ℕ → ℕ → Option (List ℕ)
open_dek out handle inner version =
    let opened =
      out.aead_decrypt (out.inner_key handle version) (take nonce_len inner) (drop nonce_len inner)
        handle in
    if leb (length inner) (nonce_len + tag_len)
    then none
    else elim opened [ none ↦ none | some dek ↦ if length dek == key_len then some dek else none ]

abbrev pub or_fail : {A : Type 0} → CustodyError → Option A → Op A
or_fail e none = fail e
or_fail e (some a) = give a

-- What `os.urandom` gives.
pub record Random : Type 0 where
  pub dek : List ℕ
  pub dek_nonce : List ℕ
  pub nonce : List ℕ

abbrev pub set_warm : String → List ℕ → ℕ → Op (Unit {0})
set_warm uid dek until s = (done tt, keep_warm uid dek until s)

abbrev pub refuse_second : String → Op (Unit {0})
refuse_second uid s = if has_key uid s then (ended data_key_exists, s) else (done tt, s)

-- `create`
unfoldable pub create : Outside → Random → ℕ → String → String → Op (Unit {0})
create out random now uid handle = do
  handled ← require_handle handle
  first ← refuse_second uid
  outer ←
      ask (wrap_call handle)
        (λ calls. out.wrap calls handle (seal_dek out handle random.dek random.dek_nonce))
  stored ← store_record uid outer key_version
  set_warm uid random.dek (now + dek_ttl)

-- `open_key`
unfoldable pub open_key : Outside → String → String → Op (List ℕ)
open_key out uid handle = do
  handled ← require_handle handle
  key ← load_record uid
  inner ← ask (unwrap_call handle) (λ calls. out.unwrap calls handle (key.1))
  or_fail custody (open_dek out handle inner (key.0))

-- The assert of `unwrap_and_sign` on the request that the proof is for
abbrev pub require_request : String → String → Op (Unit {0})
require_request htm htu = if str_eq htm "" || str_eq htu "" then fail assertion else give tt

-- `release_for_refresh`: the key and the proof
unfoldable pub release_for_refresh :
    Outside → String → String → String → String → Option String → Op (List ℕ × String)
release_for_refresh out uid handle htm htu server_nonce = do
  handled ← require_handle handle
  key ← load_record uid
  asks ← require_request htm htu
  answer ←
      ask (sign_call handle)
        (λ calls. out.unwrap_and_sign calls handle (key.1) htm htu server_nonce)
  dek ← or_fail custody (open_dek out handle (answer.0) (key.0))
  give (dek, answer.1)

-- `rewrap`
unfoldable pub rewrap_record : Outside → String → String → Op (Unit {0})
rewrap_record out uid handle = do
  handled ← require_handle handle
  key ← load_record uid
  outer ← ask (rewrap_call handle) (λ calls. out.rewrap calls handle (key.1))
  store_record uid outer (key.0)

-- An account, or the pair that onboarding has before there is one.
pub record Owner : Type 0 where
  pub id : Option String
  pub handle : Option String
  pub is_pair : Bool

-- `".." in s`
abbrev pub begins_dot : String → Bool
begins_dot String.[] = false
begins_dot (String.◌∷◌ c s) = code c == code "."

abbrev pub has_dots : String → Bool
has_dots String.[] = false
has_dots (String.◌∷◌ c s) = code c == code "." && begins_dot s || has_dots s

-- `check_id` of account.py, with what `account_dir` refuses besides, the store itself: whether an id
-- names a home. Every path under an id goes through both.
unfoldable pub is_id : String → Bool
is_id s =
    not (str_eq s "") && not (str_eq s ".") && is_free "/" s && is_free "\\" s && not (has_dots s)

-- `identify`: the id and the handle
unfoldable pub identify : Owner → Op (String × String)
identify owner =
    if not (given owner.id) || not (given owner.handle)
    then fail assertion
    else if is_id (or_text owner.id "") && is_handle (or_text owner.handle "")
    then give (or_text owner.id "", or_text owner.handle "")
    else fail invalid_account

-- `_refuse_if_deleted`
unfoldable pub refuse_if_deleted : Outside → Owner → String → Op (Unit {0})
refuse_if_deleted out owner uid s =
    if owner.is_pair || not (is_some out.accounts.manifest)
    then (done tt, s)
    else elim (account_for_email out.bot uid true out.accounts) [
      | err e ↦ (ended invalid_account, s)
      | ok none ↦ (ended account_gone, forget_key uid s)
      | ok (some account) ↦ (done tt, s)
    ]

abbrev pub open_and_keep : Outside → ℕ → String → String → Op (List ℕ)
open_and_keep out now uid handle = do
  dek ← open_key out uid handle
  kept ← set_warm uid dek (now + dek_ttl)
  give dek

-- `dek_for` after `identify`
unfoldable pub dek_of : Outside → ℕ → String → String → Op (List ℕ)
dek_of out now uid handle s =
    let cold = open_and_keep out now uid handle s in
    elim (warm_of uid s.cache) [
      | none ↦ cold
      | some w ↦ if ltb now w.until then (done w.dek, s) else cold
    ]

-- `dek_for`
unfoldable pub dek_for : Outside → ℕ → Owner → Op (List ℕ)
dek_for out now owner = identify owner >>= (λ who. dek_of out now (who.0) (who.1))
