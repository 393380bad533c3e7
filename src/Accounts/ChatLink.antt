-- ===== src/Accounts/ChatLink.antt =====
-- backend/accounts/chat_link.py: the changes of an account's Telegram chat that are under way, and
-- the proof that each of them takes.
pub mod Proof
mod Tests
use text.Mathlib.Text.{find?}
use email_summary.Prelude.{
  ℕ, ◌+◌, String, Bool, true, false, not, ◌&&◌, ◌||◌, Option, none, some, List, [], ◌∷◌, ◌++◌,
  str_eq, if◌then◌else◌, is_some, ltb, select,
}
use email_summary.Accounts.Store.{
  Result, ok, err, Error, assertion, Entry, State, given, set_telegram,
}
use email_summary.Accounts.Lookup.{Account, account_for_email}

-- The texts of `USER_MESSAGES` that this model can answer.
pub data Refusal : Type 0 where
  no_such_account code_expired changed_meanwhile code_not_seen : Refusal
  code_not_seen_from_chat not_configured code_not_delivered : Refusal

pub data Answer (A : Type 0) : Type 0 where
  done : A → Answer A
  refused : Refusal → Answer A
  raised : Error → Answer A

-- A message of the bot's inbox, oldest first; the date is 0 where it is absent.
pub record Update : Type 0 where
  pub text : String
  pub chat : Option String
  pub date : ℕ

abbrev pub post : String → Update → List (String × ℕ)
post code u = elim u.chat [
  | none ↦ []
  | some chat ↦ if is_some (find? u.text code) then (chat, u.date) ∷ [] else []
]

-- `posts_of`: newest first
abbrev pub posts_of : String → List Update → List (String × ℕ)
posts_of code [] = []
posts_of code (u ∷ updates) = posts_of code updates ++ post code u

abbrev pub is_other : Option String → String → Bool
is_other none chat = false
is_other (some pinned) chat = not (str_eq chat pinned)

-- `_posted_since`, on the posts
abbrev pub posted_since : ℕ → Option String → List (String × ℕ) → Option String
posted_since since pinned [] = none
posted_since since pinned (p ∷ posts) =
    if ltb p.1 since
    then posted_since since pinned posts
    else if is_other pinned p.0
    then posted_since since pinned posts
    else some p.0

pub record Pending : Type 0 where
  pub unlinking : Bool
  pub code : String
  pub since : ℕ
  pub expires : ℕ
  pub chat_id : Option String

abbrev pub Changes : Type 0
Changes = List (String × Pending)

-- The accounts, `_pending`, and when each account was last seen to sign in (auth_recency.py).
pub record Desk : Type 0 where
  pub accounts : State
  pub pending : Changes
  pub proven : List (String × ℕ)

-- `_prune`
abbrev pub prune_pending : ℕ → Changes → Changes
prune_pending now = select (λ p. ltb now (p.1).expires)

abbrev pub forget_in : String → Changes → Changes
forget_in id = select (λ p. not (str_eq (p.0) id))

-- `_forget`
abbrev pub forget : String → Desk → Desk
forget id w = record w { pending = forget_in id w.pending }

abbrev pub value_at {ℓ} : {A : Type ℓ} → String → List (String × A) → Option A
value_at id [] = none
value_at id (p ∷ ps) = if str_eq (p.0) id then some (p.1) else value_at id ps

abbrev pub pending_ttl : ℕ
pending_ttl = 900

-- `proven_recently`
abbrev pub proven_recently : ℕ → String → Desk → Bool
proven_recently now id w = elim (value_at id w.proven) [ none ↦ false | some t ↦ ltb now (t + 600) ]

abbrev pub chat_of : Account → Option String
chat_of a = elim a.telegram [ none ↦ none | some target ↦ some target.chat_id ]

-- `begin` once the account is found; `code` is the fresh code, `delivers` whether the notice went in.
unfoldable pub begin_for : ℕ → String → Bool → Account → Desk → Answer (Option String) × Desk
begin_for now code delivers acct w =
    let to_caller = is_some acct.telegram || proven_recently now acct.id w in
    let change : Pending = record {
      unlinking = is_some acct.telegram;
      code = code;
      since = now;
      expires = now + pending_ttl;
      chat_id = chat_of acct;
    } in
    if not to_caller && not delivers then (refused code_not_delivered, w) else (
      done (if to_caller then some code else none),
      record w { pending = (acct.id, change) ∷ forget_in acct.id (prune_pending now w.pending) },
    )

-- `begin`: the code where it is shown to the caller
unfoldable pub begin :
    Option String → ℕ → String → Bool → String → Desk → Answer (Option String) × Desk
begin bot now code delivers account_id w = elim (account_for_email bot account_id true w.accounts) [
  | err e ↦ (raised e, w)
  | ok found ↦ elim found [
    | none ↦ (refused no_such_account, w)
    | some acct ↦
        if given bot then begin_for now code delivers acct w else (refused not_configured, w)
  ]
]

-- The change as `set_telegram` answers it.
unfoldable pub save : Result (Entry × State) → Desk → Answer Entry × Desk
save (ok r) w = (done (r.0), record w { accounts = r.1 })
save (err e) w = (raised e, w)

unfoldable pub finish_link : List Update → String → Pending → Account → Desk → Answer Entry × Desk
finish_link updates account_id p acct w =
    elim (posted_since p.since none (posts_of p.code updates)) [
      | none ↦ (refused code_not_seen, w)
      | some chat ↦
          save (set_telegram acct.id (some chat) none false w.accounts) (forget account_id w)
    ]

unfoldable pub finish_unlink : List Update → String → Pending → Account → Desk → Answer Entry × Desk
finish_unlink updates account_id p acct w =
    let posted = posted_since p.since p.chat_id (posts_of p.code updates) in
    if not (given p.chat_id)
    then (raised assertion, w)
    else if not (is_some posted)
    then (refused code_not_seen_from_chat, w)
    else save (set_telegram acct.id none none true w.accounts) (forget account_id w)

abbrev pub same_chat : Option String → Option String → Bool
same_chat none none = true
same_chat none (some b) = false
same_chat (some a) none = false
same_chat (some a) (some b) = str_eq a b

abbrev pub is_unchanged : Account → Pending → Bool
is_unchanged acct p =
    (if is_some acct.telegram then p.unlinking else not p.unlinking)
    && same_chat (chat_of acct) p.chat_id

unfoldable pub finish_account :
    List Update → String → Pending → Account → Desk → Answer Entry × Desk
finish_account updates account_id p acct w =
    if not (is_unchanged acct p)
    then (refused changed_meanwhile, forget account_id w)
    else if p.unlinking
    then finish_unlink updates account_id p acct w
    else finish_link updates account_id p acct w

unfoldable pub finish_pending :
    Option String → List Update → String → Pending → Desk → Answer Entry × Desk
finish_pending bot updates account_id p w =
    elim (account_for_email bot account_id true w.accounts) [
      | err e ↦ (raised e, w)
      | ok found ↦ elim found [
        | none ↦ (refused no_such_account, w)
        | some acct ↦ finish_account updates account_id p acct w
      ]
    ]

-- `_claim`, whose pruning stays
abbrev pub claimed : ℕ → Desk → Desk
claimed now w = record w { pending = prune_pending now w.pending }

-- `finish`
unfoldable pub finish : Option String → ℕ → List Update → String → Desk → Answer Entry × Desk
finish bot now updates account_id w = elim (value_at account_id (claimed now w).pending) [
  | none ↦ (refused code_expired, claimed now w)
  | some p ↦ finish_pending bot updates account_id p (claimed now w)
]

-- `force_unlink`
unfoldable pub force_unlink : String → Desk → Answer Entry × Desk
force_unlink account_id w =
    save (set_telegram account_id none none true w.accounts) (forget account_id w)
