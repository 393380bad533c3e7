-- ===== src/Accounts/Register/Outcomes.antt =====
-- What `register_account` does to the store.
use email_summary.Prelude.{
  ℕ, ◌≤◌, String, ◌≡◌, refl, ap, ◌∙◌, true, Option, none, some, List, [], ◌∷◌, ◌++◌, arith, leb,
  if◌then◌else◌, length, length-append, inl, inr, Option-cases, Bool-cases,
}
use email_summary.Prelude.Text.{norm}
use email_summary.Accounts.Store.{
  ok, guard, chain_returned, invalid_data, Entry, State, given, or_text, open_manifest, find_entry,
  edit_first, entries_of,
}
use email_summary.Accounts.Keeps.{length-edit_first}
use email_summary.Accounts.Register.{
  Registration, new_entry, carried, kept_handle, check_handle, is_address, place, register_account,
  present, truthy,
}

open_manifest-missing_ok :
    (s : State) (entries : List Entry) → open_manifest true s ≡ ok entries → entries ≡ entries_of s
unfolding open_manifest
open_manifest-missing_ok s entries h = ground arith

place_path :
    (placed : Entry × List Entry × String) (e : Entry)
    → placed.0 ≡ e
    → placed ≡ (e, placed.1, placed.2)
place_path placed e h = rw (← h) refl

-- A registration that returns comes from one `place`, over the store's entries.
register_parts :
    (max_accounts : ℕ) (fresh : String) (reg : Registration) (s s' : State) (e : Entry)
    → register_account max_accounts fresh reg s ≡ ok (e, s')
    → (handle : String) × (after : List Entry) × (outcome : String) × (place max_accounts
          (new_entry (norm reg.email) handle reg)
          (entries_of s)
        ≡ ok (e, after, outcome))
      × (s'.manifest ≡ some after)
unfolding register_account
register_parts max_accounts fresh reg s s' e h =
    let (_, _, h₁) = chain_returned _ (guard (is_address (norm reg.email)) invalid_data) h in
    let (handle, _, h₂) =
      chain_returned _
        (check_handle (some (if given reg.handle then or_text reg.handle fresh else fresh))) h₁ in
    let (entries, opened, h₃) = chain_returned _ (open_manifest true s) h₂ in
    let (placed, done, h₄) =
      chain_returned _ (place max_accounts (new_entry (norm reg.email) handle reg) entries) h₃ in
    let same : entries ≡ entries_of s = open_manifest-missing_ok s entries opened in
    (
      handle,
      placed.1,
      placed.2,
      rw (← same) (done ∙ ap ok (place_path placed e (ground arith))),
      ground arith,
    )

kept_handle_lem :
    (handle h : Option String)
    → kept_handle handle ≡ ok h
    → h ≡ (if given handle then handle else none)
unfolding kept_handle check_handle
kept_handle_lem none h e = ground arith
kept_handle_lem (some t) h e = ground arith

-- The branch of a returning user.
place_old :
    (max_accounts : ℕ) (new old e : Entry) (entries after : List Entry) (outcome : String)
    → find_entry new.id entries ≡ some old
    → place max_accounts new entries ≡ ok (e, after, outcome)
    → (e ≡ carried (if given old.handle then old.handle else none) old new)
      × (after ≡ edit_first new.id (λ _. e) entries)
unfolding place
place_old max_accounts new old e entries after outcome there h =
    let h' = rw (there, place) at h in
    let (handle, kept, h₁) = chain_returned _ (kept_handle old.handle) h' in
    let merged : e ≡ carried handle old new = ground arith in
    (
      merged ∙ ap (λ k. carried k old new) (kept_handle_lem old.handle handle kept),
      rw merged (ground arith),
    )

length-place :
    (max_accounts : ℕ) (new e : Entry) (entries after : List Entry) (outcome : String)
    → length entries ≤ max_accounts
    → place max_accounts new entries ≡ ok (e, after, outcome)
    → length after ≤ max_accounts
unfolding place
length-place max_accounts new e entries after outcome room h =
    elim (Option-cases (find_entry new.id entries)) [
      | inl fresh ↦
          let h' = rw (fresh, place) at h in
          elim (Bool-cases (leb max_accounts (length entries))) [
            | inl full ↦ absurd (ground arith)
            | inr free ↦
                let grown : after ≡ entries ++ new ∷ [] = ground arith in
                rw grown (rw length-append (ground arith))
          ]
      | inr (old, there) ↦
          rw (place_old max_accounts new old e entries after outcome there h).1
            (rw length-edit_first room)
    ]

-- The ceiling holds: a registration that returns leaves at most the allowed number of entries, if
-- there were no more before.
pub register_account_bounded :
    (max_accounts : ℕ) (fresh : String) (reg : Registration) (s s' : State) (e : Entry)
    → length (entries_of s) ≤ max_accounts
    → register_account max_accounts fresh reg s ≡ ok (e, s')
    → length (entries_of s') ≤ max_accounts
unfolding new_entry
register_account_bounded max_accounts fresh reg s s' e room h =
    let (handle, after, outcome, placed, now) = register_parts max_accounts fresh reg s s' e h in
    rw (now, entries_of)
      (length-place max_accounts (new_entry (norm reg.email) handle reg) e (entries_of s) after
        outcome room placed)

-- A returning user keeps the handle, the plan, the telegram chat that the call does not replace,
-- the preferences, and the billing link; the names and the addresses are the call's, and no other
-- entry changes.
pub register_returning :
    (max_accounts : ℕ) (fresh : String) (reg : Registration) (s s' : State) (old e : Entry)
    → find_entry (norm reg.email) (entries_of s) ≡ some old
    → given old.handle ≡ true
    → register_account max_accounts fresh reg s ≡ ok (e, s')
    → (e.handle ≡ old.handle)
      × (e.plan_status ≡ present old.plan_status (some reg.plan_status))
      × (e.telegram_chat ≡ present (truthy reg.telegram_chat_id) old.telegram_chat)
      × (e.pii_analyzer ≡ old.pii_analyzer)
      × (e.ban_dashes ≡ old.ban_dashes)
      × (e.inference_provider ≡ old.inference_provider)
      × (e.community_calendar ≡ old.community_calendar)
      × (e.polar_customer_id ≡ truthy old.polar_customer_id)
      × (e.emails ≡ norm reg.email ∷ [])
      × (e.phones ≡ [])
      × (e.contacts ≡ [])
      × (s'.manifest ≡ some (edit_first (norm reg.email) (λ _. e) (entries_of s)))
unfolding new_entry carried
register_returning max_accounts fresh reg s s' old e there has_handle h =
    let (handle, after, outcome, placed, now) = register_parts max_accounts fresh reg s s' e h in
    let (merged, edited) =
      place_old max_accounts (new_entry (norm reg.email) handle reg) old e (entries_of s) after
        outcome there placed in
    (
      ap (λ (x : Entry). x.handle) merged ∙ rw has_handle (ground arith),
      ground arith,
      ground arith,
      ground arith,
      ground arith,
      ground arith,
      ground arith,
      ground arith,
      ground arith,
      ground arith,
      ground arith,
      now ∙ ap some edited,
    )
