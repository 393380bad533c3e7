-- ===== src/Daemon/WakeQueue/Drained.antt =====
-- Which mailboxes a wake reaches.
use email_summary.Prelude.{
  String, ◌≡◌, refl, ap, ◌∙◌, Bool, true, false, ◌||◌, Option, none, some, List, [], ◌∷◌, ◌++◌,
  str_eq, eq_iff, some_pass, All, arith, inl, inr, Bool-cases,
}
use email_summary.Prelude.Sets.{is_member, HasNoRepeats}
use email_summary.Accounts.Store.{ok, Result-cases, State}
use email_summary.Accounts.Lookup.{Account, is_active, get_account}
use email_summary.Accounts.Routing.{get_account_routes}
use email_summary.Daemon.WakeQueue.{Woken, value_of, drain_onto, wake_drain, onto, process_accounts}

-- The line names the value.
abbrev pub wakes_for : String → Woken → Bool
wakes_for u line = str_eq u (value_of line)

is_member-append :
    (u : String) (xs ys : List String) → is_member u (xs ++ ys) ≡ (is_member u xs || is_member u ys)
is_member-append u [] ys = refl
is_member-append u (x ∷ xs) ys = ground (arith, is_member-append u xs ys)

append-HasNoRepeats :
    (xs : List String) (x : String)
    → HasNoRepeats xs
    → is_member x xs ≡ false
    → HasNoRepeats (xs ++ x ∷ [])
append-HasNoRepeats [] x h f = (refl, tt)
append-HasNoRepeats (y ∷ xs) x h f = (
  ground (arith, is_member-append y xs (x ∷ []), h.0, eq_iff x y, eq_iff y x),
  append-HasNoRepeats xs x h.1 (ground arith),
)

drain_onto-HasNoRepeats :
    (seen : List String) (spool : List Woken)
    → HasNoRepeats seen
    → HasNoRepeats (drain_onto seen spool)
drain_onto-HasNoRepeats seen [] h = h
drain_onto-HasNoRepeats seen (line ∷ spool) h = elim (Bool-cases (str_eq (value_of line) "")) [
  | inl blank ↦ rw blank (drain_onto-HasNoRepeats seen spool h)
  | inr named ↦ elim (Bool-cases (is_member (value_of line) seen)) [
    | inl old ↦ rw (named, old) (drain_onto-HasNoRepeats seen spool h)
    | inr new ↦
        rw (named, new)
          (drain_onto-HasNoRepeats (seen ++ value_of line ∷ []) spool
            (append-HasNoRepeats seen (value_of line) h new))
  ]
]

is_member-drain_onto :
    (u : String) (seen : List String) (spool : List Woken)
    → str_eq u "" ≡ false
    → is_member u (drain_onto seen spool) ≡ (is_member u seen || some_pass (wakes_for u) spool)
is_member-drain_onto u seen [] real = ground arith
is_member-drain_onto u seen (line ∷ spool) real = ground (
  arith,
  is_member-drain_onto u seen spool real,
  is_member-drain_onto u (seen ++ value_of line ∷ []) spool real,
  is_member-append u seen (value_of line ∷ []),
  eq_iff u (value_of line),
)

-- A drain names no address twice, and names exactly those that a line of the spool names: pushes
-- coalesce and none is lost.
pub wake_drain_coalesces :
    (spool : List Woken)
    → HasNoRepeats (wake_drain spool)
      × ((u : String)
          → str_eq u "" ≡ false
          → is_member u (wake_drain spool) ≡ some_pass (wakes_for u) spool)
unfolding wake_drain
wake_drain_coalesces spool =
    (drain_onto-HasNoRepeats [] spool tt, (λ u real. is_member-drain_onto u [] spool real))

onto_active :
    (acct : Option Account) (rest run : List Account)
    → ((a : Account) → acct ≡ some a → is_active a ≡ true)
    → All (λ a. is_active a ≡ true) rest
    → run ≡ onto acct rest
    → All (λ a. is_active a ≡ true) run
onto_active none rest run h f e = rw e f
onto_active (some a) rest run h f e = rw e (h a refl, f)

-- Whatever addresses the webhook queued, a pass that returns runs only accounts whose plan is not
-- inactive.
pub process_accounts_active :
    (bot : Option String) (ids : List String) (s : State) (run : List Account)
    → process_accounts bot ids s ≡ ok run
    → All (λ a. is_active a ≡ true) run
unfolding process_accounts
process_accounts_active bot [] s run h = let empty : run ≡ [] = ground arith in rw empty tt
process_accounts_active bot (id ∷ ids) s run h = elim (Result-cases (get_account bot id s)) [
  | inl (x, failed) ↦ absurd (ground arith)
  | inr (acct, found) ↦ elim (Result-cases (process_accounts bot ids s)) [
    | inl (x, failed) ↦ absurd (ground arith)
    | inr (rest, done) ↦
        let more = process_accounts_active bot ids s rest done in
        onto_active acct rest run (λ a one. (get_account_routes bot id s a (found ∙ ap ok one)).0)
          more (ground arith)
  ]
]
