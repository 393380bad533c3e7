-- ===== src/Accounts/ChatLink/Tests.antt =====
-- Runs of a change of chat on the sample store.
use email_summary.Prelude.{◌≡◌, refl, true, none, some, List, [], ◌∷◌}
use email_summary.Prelude.Text.{norm, lower}
use email_summary.Accounts.Samples.{ada, bob, store}
use email_summary.Accounts.Store.{Entry}
use email_summary.Accounts.Lookup.{
  Account, account_from_entry, telegram_from_entry, account_for_email, all_accounts, match_address,
}
use email_summary.Accounts.ChatLink.{
  Answer, done, refused, code_not_seen_from_chat, Update, Desk, begin, begin_for, finish,
  finish_pending, finish_account, finish_unlink,
}

abbrev nothing_pending : Desk
nothing_pending = record { accounts = store; pending = []; proven = [] }

abbrev bob_free : Desk
bob_free = record nothing_pending {
  accounts = record store { manifest = some (ada ∷ record bob { telegram_chat = none } ∷ []) };
}

-- Ada and Bob each asked for a change at 1000, with the code "K1".
abbrev ada_asked : Desk
ada_asked = (begin (some "bot") 1_000 "K1" true "ada@example.org" nothing_pending).1

abbrev bob_asked : Desk
bob_asked = (begin (some "bot") 1_000 "K1" true "bob@example.org" bob_free).1

abbrev inbox : List Update
inbox =
    record { text = "K1"; chat = some "77"; date = 900 }
    ∷ record { text = "my code: K1"; chat = some "77"; date = 1_010 }
    ∷ record { text = "K1"; chat = some "88"; date = 1_020 }
    ∷ []

abbrev ada_account : Account
ada_account = account_from_entry (some "bot") ada

abbrev bob_account : Account
bob_account = account_from_entry (some "bot") (record bob { telegram_chat = none })

abbrev answered : Answer Entry → Entry
answered (done e) = e
answered _ = ada

abbrev ada_result : Answer Entry × Desk
ada_result = finish (some "bot") 1_100 inbox "ada@example.org" ada_asked

abbrev bob_result : Answer Entry × Desk
bob_result = finish (some "bot") 1_100 inbox "bob@example.org" bob_asked

-- The old message alone is not enough.
old_code_refused :
    (finish
      (some "bot")
      1_100
      (record { text = "K1"; chat = some "77"; date = 900 } ∷ [])
      "ada@example.org"
      ada_asked).0
    ≡ refused code_not_seen_from_chat
unfolding finish finish_pending finish_account finish_unlink begin begin_for account_for_email
    all_accounts match_address account_from_entry telegram_from_entry norm lower
old_code_refused = refl
