-- ===== src/Accounts/Keeps.antt =====
-- What a writer of one field leaves alone, and what it did when it returned.
use mathlib.Core.Option
use email_summary.Prelude.{
  suc, ◌+◌, String, ◌≡◌, refl, Bool, true, not, none, some, List, [], ◌∷◌, arith, str_eq, eq_iff,
  if◌then◌else◌, is_some, select, length, inl, inr, Bool-cases, Option-cases, List-cases,
}
use email_summary.Prelude.Text.{norm}
use email_summary.Accounts.Store.{
  ok, Entry, State, or_text, is_entry, find_entry, edit_first, edit, set_plan_status,
  delete_account,
}

pub find_entry-is_entry :
    (key : String) (entries : List Entry) (e : Entry)
    → find_entry key entries ≡ some e
    → is_entry key e ≡ true
find_entry-is_entry key [] e h = cc
find_entry-is_entry key (x ∷ entries) e h = ground (arith, find_entry-is_entry key entries e)

-- A change that keeps the id is what is found afterwards, and no other address is touched.
module _ (f : Entry → Entry) (keeps_id : (e : Entry) → (f e).id ≡ e.id) where
  pub find_entry-edit_first :
      (key other : String) (entries : List Entry)
      → find_entry other (edit_first key f entries) ≡ (
          if str_eq other key
          then Option.map f (find_entry other entries)
          else find_entry other entries)
  find_entry-edit_first key other [] = ground arith
  find_entry-edit_first key other (e ∷ entries) = elim (Bool-cases (is_entry key e)) [
    | inl hit ↦ rw hit (
        ground
          (arith, keeps_id e, eq_iff other key, eq_iff (norm e.id) key, eq_iff (norm e.id) other))
    | inr miss ↦ rw miss (
        ground (
          arith,
          find_entry-edit_first key other entries,
          eq_iff other key,
          eq_iff (norm e.id) other,
        ))
  ]

pub length-edit_first :
    (f : Entry → Entry) (key : String) (entries : List Entry)
    → length (edit_first key f entries) ≡ length entries
length-edit_first f key [] = refl
length-edit_first f key (e ∷ entries) = ground (arith, length-edit_first f key entries)

-- A plan change that returns: the entry was there, its old plan is the answer, the new plan is
-- written to it, and nothing else is.
pub set_plan_status_parts :
    (account_id status : String) (s s' : State) (prior : String)
    → set_plan_status account_id status s ≡ ok (prior, s')
    → (entries : List Entry) × (entry : Entry) × (s.manifest ≡ some entries)
      × (find_entry (norm account_id) entries ≡ some entry)
      × (prior ≡ or_text entry.plan_status "active")
      × (s'.manifest ≡ some (edit account_id (λ e. record e { plan_status = some status }) entries))
unfolding set_plan_status
set_plan_status_parts account_id status s s' prior h = elim (Option-cases s.manifest) [
  | inl missing ↦ absurd (ground arith)
  | inr (entries, there) ↦ elim (Option-cases (find_entry (norm account_id) entries)) [
    | inl nobody ↦ absurd (ground arith)
    | inr (entry, found) ↦ (entries, entry, there, found, ground arith, ground arith)
  ]
]

-- A plan change that returns answers the plan that the address had, gives the address the new
-- plan, leaves the entry of every other address as it was, and keeps the number of entries.
pub set_plan_status_effect :
    (account_id status : String) (s s' : State) (prior : String)
    → set_plan_status account_id status s ≡ ok (prior, s')
    → (before : List Entry) × (after : List Entry) × (s.manifest ≡ some before)
      × (s'.manifest ≡ some after)
      × ((other : String)
          → find_entry other after ≡ (
              if str_eq other (norm account_id)
              then Option.map
                  (λ (e : Entry). record e { plan_status = some status })
                  (find_entry other before)
              else find_entry other before))
      × (length after ≡ length before)
set_plan_status_effect account_id status s s' prior h =
    let (entries, entry, there, found, same, now) =
      set_plan_status_parts account_id status s s' prior h in
    (
      entries,
      edit account_id (λ e. record e { plan_status = some status }) entries,
      there,
      now,
      (λ other.
          find_entry-edit_first (λ e. record e { plan_status = some status }) (λ e. refl)
            (norm account_id) other entries),
      length-edit_first (λ e. record e { plan_status = some status }) (norm account_id) entries,
    )

find_entry-deleted :
    (key other : String) (entries : List Entry)
    → find_entry other (select (λ e. not (is_entry key e)) entries)
      ≡ (if str_eq other key then none else find_entry other entries)
find_entry-deleted key other [] = ground arith
find_entry-deleted key other (e ∷ entries) = ground (
  arith,
  find_entry-deleted key other entries,
  eq_iff other key,
  eq_iff (norm e.id) key,
  eq_iff (norm e.id) other,
)

select-none :
    (key other : String) (entries : List Entry)
    → select (is_entry key) entries ≡ []
    → (find_entry key entries ≡ none)
      × (find_entry other entries ≡ (if str_eq other key then none else find_entry other entries))
select-none key other [] h = (refl, ground arith)
select-none key other (e ∷ entries) h =
    ground (arith, select-none key other entries, eq_iff other key, eq_iff (norm e.id) key)

select_some :
    (key : String) (x : Entry) (xs entries : List Entry)
    → select (is_entry key) entries ≡ x ∷ xs
    → is_some (find_entry key entries) ≡ true
select_some key x xs [] h = cc
select_some key x xs (e ∷ entries) h = ground (arith, select_some key x xs entries)

-- A deletion that returns leaves no entry of the address and every other one as it was. It answers
-- whether there was one, and writes an audit row only then.
pub delete_account_effect :
    (account_id : String) (s s' : State) (gone : Bool)
    → delete_account account_id s ≡ ok (gone, s')
    → (before : List Entry) × (after : List Entry) × (s.manifest ≡ some before)
      × (s'.manifest ≡ some after)
      × (gone ≡ is_some (find_entry (norm account_id) before))
      × (length s'.log ≡ length s.log + (if gone then 1 else 0))
      × ((other : String)
          → find_entry other after
            ≡ (if str_eq other (norm account_id) then none else find_entry other before))
unfolding delete_account
delete_account_effect account_id s s' gone h = elim (Option-cases s.manifest) [
  | inl missing ↦ absurd (ground arith)
  | inr (entries, there) ↦ elim (List-cases (select (is_entry (norm account_id)) entries)) [
    | inl nobody ↦ (
      entries,
      entries,
      there,
      ground arith,
      ground (arith, select-none (norm account_id) "" entries),
      ground arith,
      (λ other. (select-none (norm account_id) other entries nobody).1),
    )
    | inr (e, es, somebody) ↦ (
      entries,
      select (λ x. not (is_entry (norm account_id) x)) entries,
      there,
      ground arith,
      ground (arith, select_some (norm account_id) e es entries),
      ground arith,
      (λ other. find_entry-deleted (norm account_id) other entries),
    )
  ]
]

pub set_plan_status_log :
    (account_id status : String) (s s' : State) (prior : String)
    → set_plan_status account_id status s ≡ ok (prior, s')
    → length s'.log ≡ suc (length s.log)
unfolding set_plan_status
set_plan_status_log account_id status s s' prior h = elim (Option-cases s.manifest) [
  | inl missing ↦ absurd (ground arith)
  | inr (entries, there) ↦ elim (Option-cases (find_entry (norm account_id) entries)) [
    | inl nobody ↦ absurd (ground arith)
    | inr (entry, found) ↦ ground arith
  ]
]
