-- ===== src/Custody/Holdings.antt =====
-- What backend/custody/keyring.py works on: the records and documents on disk, the keys in memory, the
-- co-signer and the ciphers; and how an operation ends.

use email_summary.Prelude.{ℕ, zero, suc, String, Option, List, [], ◌∷◌}
use email_summary.Accounts.Store.{State}

pub data CustodyError : Type 0 where
  no_data_key bad_record data_key_exists account_gone custody invalid_account assertion :
      CustodyError

-- A call of the co-signer, with the handle.
pub data Call : Type 0 where
  wrap_call unwrap_call sign_call rewrap_call : String → Call

-- An opened data key, and when it is no more to be used.
pub record Warm : Type 0 where
  pub uid : String
  pub dek : List ℕ
  pub until : ℕ

pub record KeyFile : Type 0 where
  pub uid : String
  pub blob : List ℕ

pub record Document : Type 0 where
  pub uid : String
  pub name : String
  pub blob : List ℕ

-- The disk, the keys that one process keeps in memory, and the calls so far, newest first. Another
-- process on the same disk keeps its own.
pub record Shelf : Type 0 where
  pub keys : List KeyFile
  pub documents : List Document
  pub cache : List Warm
  pub calls : List Call

-- What is not of this repository, or not of this process; the co-signer answers by what it was asked
-- before.
pub record Outside : Type 0 where
  pub aead_encrypt : List ℕ → List ℕ → List ℕ → String → List ℕ
  pub aead_decrypt : List ℕ → List ℕ → List ℕ → String → Option (List ℕ)
  pub inner_key : String → ℕ → List ℕ
  pub wrap : List Call → String → List ℕ → Option (List ℕ)
  pub unwrap : List Call → String → List ℕ → Option (List ℕ)
  pub unwrap_and_sign :
      List Call → String → List ℕ → String → String → Option String → Option (List ℕ × String)
  pub rewrap : List Call → String → List ℕ → Option (List ℕ)
  pub accounts : State
  pub bot : Option String

pub data Done {ℓ} (A : Type ℓ) : Type ℓ where
  ended : CustodyError → Done A
  done : A → Done A

abbrev pub Op : Type 0 → Type 0
Op A = Shelf → Done A × Shelf

abbrev pub give : {A : Type 0} → A → Op A
give a s = (done a, s)

abbrev pub fail : {A : Type 0} → CustodyError → Op A
fail e s = (ended e, s)

abbrev pub continue : {A B : Type 0} → Done A → (A → Op B) → Op B
continue (ended e) next s = (ended e, s)
continue (done a) next s = next a s

infixl 5 ◌>>=◌
abbrev pub ◌>>=◌ : {A B : Type 0} → Op A → (A → Op B) → Op B
(m >>= next) s = continue ((m s).0) next ((m s).1)

abbrev pub drop : ℕ → List ℕ → List ℕ
drop zero xs = xs
drop (suc n) [] = []
drop (suc n) (x ∷ xs) = drop n xs

abbrev pub key_len : ℕ
key_len = 32

abbrev pub nonce_len : ℕ
nonce_len = 12

abbrev pub tag_len : ℕ
tag_len = 16

abbrev pub dek_ttl : ℕ
dek_ttl = 300

abbrev pub key_version : ℕ
key_version = 1
