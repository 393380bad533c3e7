-- ===== src/Custody/Tests.antt =====
-- Runs of the key ring at concrete inputs.
use email_summary.Prelude.{
  ℕ, zero, suc, ◌+◌, ◌<◌, String, ◌⊎◌, ◌≡◌, refl, ◌↔◌, false, none, some, List, [], ◌∷◌, ◌++◌,
  length, arith,
}
use email_summary.Accounts.Register.{is_handle}
use email_summary.Custody.{
  Outside, Random, Shelf, Warm, warm_of, wrap_call, unwrap_call, sign_call, ended, done, drop,
  no_data_key, data_key_exists, Owner, identify, is_id, encode_record, decode_record, store_record,
  load_record, create, open_dek, open_key, destroy, dek_of, dek_for, dek_ttl, refuse_if_deleted,
  release_for_refresh, tag_len,
}
use email_summary.Custody.Files.{encrypt, ensure_key, write_encrypted, read_encrypted}
use email_summary.Custody.Records.{decode_record_iff}
use email_summary.Custody.Opened.{known_as}
use email_summary.Custody.Keeping.{beside, destroy_shreds, release_for_refresh_asks, dek_for_keeps}
use email_summary.Custody.Documents.{write_then_read}

abbrev zeros : ℕ → List ℕ
zeros zero = []
zeros (suc n) = 0 ∷ zeros n

-- A cipher that seals with sixteen zeros in front, and a co-signer that adds one byte.
abbrev out : Outside
out = record {
  aead_encrypt = λ key nonce bytes bound. zeros 16 ++ bytes;
  aead_decrypt = λ key nonce sealed bound. some (drop 16 sealed);
  inner_key = λ handle version. zeros 32;
  wrap = λ calls handle inner. some (9 ∷ inner);
  unwrap = λ calls handle outer. some (drop 1 outer);
  unwrap_and_sign = λ calls handle outer htm htu nonce. some (drop 1 outer, "proof");
  rewrap = λ calls handle outer. some outer;
  accounts = record { manifest = none; log = [] };
  bot = none;
}

sealed_length :
    (key nonce bytes : List ℕ) (bound : String)
    → length (out.aead_encrypt key nonce bytes bound) ≡ length bytes + tag_len
sealed_length key nonce bytes bound = omega arith

abbrev random : Random
random = record { dek = 5 ∷ zeros 31; dek_nonce = zeros 12; nonce = zeros 12 }

abbrev handle : String
handle = "0123456789abcdef0123456789abcdef"

abbrev owner : Owner
owner = record { id = some "a@x.org"; handle = some handle; is_pair = false }

abbrev bare : Shelf
bare = record { keys = []; documents = []; cache = []; calls = [] }

known : identify owner bare ≡ known_as "a@x.org" handle bare
unfolding identify is_id is_handle
known = refl

abbrev written : Shelf
written = (write_encrypted out random 100 owner "voice.md" (1 ∷ 2 ∷ []) bare).1

writes : write_encrypted out random 100 owner "voice.md" (1 ∷ 2 ∷ []) bare ≡ (done tt, written)
unfolding write_encrypted identify is_id is_handle ensure_key refuse_if_deleted create store_record
    encode_record dek_for dek_of encrypt
writes = refl

one_wrap : written.calls ≡ wrap_call handle ∷ []
unfolding write_encrypted identify is_id is_handle ensure_key refuse_if_deleted create store_record
    encode_record dek_for dek_of encrypt
one_wrap = refl

second_create_refused : (create out random 200 "a@x.org" handle written).0 ≡ ended data_key_exists
unfolding write_encrypted identify is_id is_handle ensure_key refuse_if_deleted create store_record
    encode_record dek_for dek_of encrypt
second_create_refused = refl

write_then_read_example :
    (until : ℕ) × (100 < until)
    × ((later : ℕ)
        → later < until
        → read_encrypted out later owner "voice.md" written ≡ (done (some (1 ∷ 2 ∷ [])), written))
write_then_read_example =
    write_then_read out random 100 owner "voice.md" "a@x.org" handle (1 ∷ 2 ∷ []) bare written
      (λ key nonce bytes bound. refl) sealed_length refl (omega arith) known writes

known_there : identify owner written ≡ known_as "a@x.org" handle written
unfolding identify is_id is_handle
known_there = refl

-- Another process holds the key a while longer.
abbrev held : List Warm
held = record { uid = "a@x.org"; dek = 5 ∷ zeros 31; until = 300 } ∷ []

abbrev shredded : Shelf
shredded = (destroy "a@x.org" written).1

destroy_shreds_example :
    (dek_for out 200 owner shredded ≡ (ended no_data_key, shredded))
    × ((dek_for out 200 owner (beside shredded held) ≡ (ended no_data_key, beside shredded held))
        ⊎ ((w : Warm) × (warm_of "a@x.org" held ≡ some w)
            × (200 < w.until)
            × (dek_for out 200 owner (beside shredded held) ≡ (done w.dek, beside shredded held))))
    × (release_for_refresh out "a@x.org" handle "POST" "token" none (beside shredded held)
        ≡ (ended no_data_key, beside shredded held))
destroy_shreds_example =
    destroy_shreds out 200 owner "a@x.org" handle written held "POST" "token" none known_there

decode_record_iff_example :
    ((decode_record (76 ∷ 76 ∷ 68 ∷ 75 ∷ 1 ∷ 1 ∷ 9 ∷ []) ≡ some (1, 9 ∷ []))
      ↔ (encode_record 1 (9 ∷ []) ≡ some (76 ∷ 76 ∷ 68 ∷ 75 ∷ 1 ∷ 1 ∷ 9 ∷ [])))
decode_record_iff_example =
    decode_record_iff (76 ∷ 76 ∷ 68 ∷ 75 ∷ 1 ∷ 1 ∷ 9 ∷ []) (9 ∷ []) 1 (omega arith)

-- The shelf after a restart: the key on the disk, and nothing in memory.
abbrev restarted : Shelf
restarted = record bare {
  keys =
      record {
        uid = "a@x.org";
        blob = 76 ∷ 76 ∷ 68 ∷ 75 ∷ 1 ∷ 1 ∷ 9 ∷ zeros 12 ++ zeros 16 ++ 5 ∷ zeros 31;
      }
      ∷ [];
}

known_again : identify owner restarted ≡ known_as "a@x.org" handle restarted
unfolding identify is_id is_handle
known_again = refl

abbrev asked : Shelf
asked = (dek_for out 400 owner restarted).1

asks : dek_for out 400 owner restarted ≡ (done (5 ∷ zeros 31), asked)
unfolding identify is_id is_handle dek_for dek_of open_key load_record decode_record open_dek
asks = refl

dek_for_keeps_example :
    (until : ℕ) × (400 < until)
    × ((later : ℕ) → later < until → dek_for out later owner asked ≡ (done (5 ∷ zeros 31), asked))
    × ((asked.calls ≡ restarted.calls)
        ⊎ ((until ≡ 400 + dek_ttl) × (asked.calls ≡ unwrap_call handle ∷ restarted.calls)))
dek_for_keeps_example =
    dek_for_keeps out 400 owner "a@x.org" handle (5 ∷ zeros 31) restarted asked known_again asks

abbrev refreshed : Shelf
refreshed = (release_for_refresh out "a@x.org" handle "POST" "token" none restarted).1

refreshes :
    release_for_refresh out "a@x.org" handle "POST" "token" none restarted
    ≡ (done (5 ∷ zeros 31, "proof"), refreshed)
unfolding is_handle release_for_refresh load_record decode_record open_dek
refreshes = refl

release_for_refresh_asks_example : refreshed ≡ record restarted { calls = sign_call handle ∷ [] }
release_for_refresh_asks_example =
    release_for_refresh_asks out "a@x.org" handle "POST" "token" none (5 ∷ zeros 31) "proof"
      restarted refreshed refreshes
