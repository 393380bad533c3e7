-- ===== src/Custody/Files.antt =====
-- The documents of backend/custody/keyring.py, encrypted under the key of their account.

use Prim.Native.String.{◌++◌ as join_text}
use email_summary.Prelude.{
  ℕ, ◌+◌, String, Bool, not, ◌&&◌, ◌||◌, Option, none, some, List, [], ◌∷◌, ◌++◌, str_eq,
  if◌then◌else◌, is_some, leb, ◌==◌, take, length, select,
}
use email_summary.Custody.{
  Document, Done, Op, Outside, Owner, Random, Shelf, assertion, bad_record, create, custody,
  dek_for, done, drop, ended, give, has_key, identify, key_len, nonce_len, or_fail,
  refuse_if_deleted, tag_len, ◌>>=◌,
}

-- `aad`
abbrev pub aad : String → String → String
aad handle name = join_text handle (join_text "|" name)

-- `encrypt`, with its nonce; `none` where it asserts
unfoldable pub encrypt : Outside → List ℕ → String → String → List ℕ → List ℕ → Option (List ℕ)
encrypt out dek handle name nonce bytes =
    if length dek == key_len && not (str_eq name "")
    then some (nonce ++ out.aead_encrypt dek nonce bytes (aad handle name))
    else none

-- `decrypt`
unfoldable pub decrypt : Outside → List ℕ → String → String → List ℕ → Done (List ℕ)
decrypt out dek handle name blob =
    let opened : Done (List ℕ) =
      elim (out.aead_decrypt dek (take nonce_len blob) (drop nonce_len blob) (aad handle name)) [
        | none ↦ ended custody
        | some bytes ↦ done bytes
      ] in
    if not (length dek == key_len) || str_eq name ""
    then ended assertion
    else if leb (length blob) (nonce_len + tag_len)
    then ended bad_record
    else opened

abbrev pub is_document : String → String → Document → Bool
is_document uid name d = str_eq d.uid uid && str_eq d.name name

abbrev pub find_document : String → String → List Document → Option (List ℕ)
find_document uid name [] = none
find_document uid name (d ∷ ds) =
    if is_document uid name d then some d.blob else find_document uid name ds

abbrev pub put_document : String → String → List ℕ → Op (Unit {0})
put_document uid name blob s = (
  done tt,
  record s {
    documents =
        record { uid = uid; name = name; blob = blob }
        ∷ select (λ d. not (is_document uid name d)) s.documents;
  },
)

-- The key that `write_encrypted` makes where there is none.
unfoldable pub ensure_key : Outside → Random → ℕ → Owner → String → String → Op (Unit {0})
ensure_key out random now owner uid handle s =
    let made =
      (refuse_if_deleted out owner uid >>= (λ there. create out random now uid handle)) s in
    if has_key uid s then (done tt, s) else made

-- `write_encrypted` once there is a key.
abbrev pub write_keyed :
    Outside → Random → ℕ → Owner → String → List ℕ → String → String → Op (Unit {0})
write_keyed out random now owner name bytes uid handle = do
  dek ← dek_for out now owner
  blob ← or_fail assertion (encrypt out dek handle name random.nonce bytes)
  put_document uid name blob

-- `write_encrypted`, of the bytes of the text
unfoldable pub write_encrypted : Outside → Random → ℕ → Owner → String → List ℕ → Op (Unit {0})
write_encrypted out random now owner name bytes = do
  who ← identify owner
  made ← ensure_key out random now owner (who.0) (who.1)
  write_keyed out random now owner name bytes (who.0) (who.1)

abbrev pub as_op : {A : Type 0} → Done A → Op A
as_op d s = (d, s)

-- `read_encrypted`, the bytes of the text; `none` where it returns the default
unfoldable pub read_encrypted : Outside → ℕ → Owner → String → Op (Option (List ℕ))
read_encrypted out now owner name = do
  who ← identify owner
  found ← (λ s. (done (find_document (who.0) name s.documents), s))
  elim found [
    | none ↦ give none
    | some blob ↦ (do
      dek ← dek_for out now owner
      bytes ← as_op (decrypt out dek (who.1) name blob)
      give (some bytes))
  ]

-- `clear_encrypted`, of an identified account
unfoldable pub clear_encrypted : String → String → Shelf → Bool × Shelf
clear_encrypted uid name s = (
  is_some (find_document uid name s.documents),
  record s { documents = select (λ d. not (is_document uid name d)) s.documents },
)
