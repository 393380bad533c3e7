-- ===== src/Accounts/Routing.antt =====
-- What the readers return: only active accounts are routed to, and a stopped plan stops routing.
use email_summary.Prelude.{
  String, ◌≡◌, ◌≢◌, true, false, Option, some, List, [], ◌∷◌, map, arith, eq_iff, select, All,
  All-select, All-select_keeps, Option-cases, subst, inl, inr, Bool-cases,
}
use email_summary.Prelude.Text.{norm}
use email_summary.Accounts.Store.{ok, Entry, State, is_entry, edit_first, edit, set_plan_status}
use email_summary.Accounts.Keeps.{set_plan_status_parts}
use email_summary.Accounts.Lookup.{
  Account, account_from_entry, all_accounts, load_accounts, get_account, match_address, first_owner,
  owns, is_active, is_sound, no_repeats, text_in, ids,
}

first_owner-All :
    (P : Account → Type 0) (email : String) (pool : List Account) (a : Account)
    → All P pool
    → first_owner email pool ≡ some a
    → P a
first_owner-All P email [] a h e = cc
first_owner-All P email (b ∷ pool) a h e = elim (Bool-cases (owns email b)) [
  | inl found ↦ subst P (ground arith) h.0
  | inr other ↦ first_owner-All P email pool a h.1 (ground arith)
]

first_owner-owns :
    (email : String) (pool : List Account) (a : Account)
    → first_owner email pool ≡ some a
    → owns email a ≡ true
first_owner-owns email [] a h = cc
first_owner-owns email (b ∷ pool) a h = ground (arith, first_owner-owns email pool a)

-- What an answer of `get_account` comes from.
get_account_parts :
    (bot : Option String) (email : String) (s : State) (a : Account)
    → get_account bot email s ≡ ok (some a)
    → (entries : List Entry) × (s.manifest ≡ some entries)
      × (is_sound entries ≡ true)
      × (first_owner (norm email) (select is_active (map (account_from_entry bot) entries))
          ≡ some a)
unfolding get_account load_accounts match_address all_accounts
get_account_parts bot email s a h = elim (Option-cases s.manifest) [
  | inl missing ↦ absurd (ground arith)
  | inr (entries, there) ↦ (entries, there, ground arith, ground arith)
]

-- An account that `get_account` returns has the address, and its plan is not inactive.
pub get_account_routes :
    (bot : Option String) (email : String) (s : State) (a : Account)
    → get_account bot email s ≡ ok (some a)
    → (is_active a ≡ true) × (owns (norm email) a ≡ true)
get_account_routes bot email s a h =
    let (entries, there, sound, found) = get_account_parts bot email s a h in
    (
      first_owner-All (λ x. is_active x ≡ true) (norm email)
          (select is_active (map (account_from_entry bot) entries)) a
          (All-select (λ x. is_active x ≡ true) is_active (map (account_from_entry bot) entries)
            (λ x e. e))
          found,
      first_owner-owns (norm email) (select is_active (map (account_from_entry bot) entries)) a
          found,
    )

abbrev pub HasNormalIds : List Entry → Type 0
HasNormalIds = All (λ e. norm e.id ≡ e.id)

-- No entry but the first has the address, where ids are normal and do not repeat.
others_differ :
    (key : String) (own : String) (es : List Entry)
    → norm own ≡ key
    → norm own ≡ own
    → HasNormalIds es
    → text_in own (ids es) ≡ false
    → All (λ e. norm e.id ≢ key) es
others_differ key own [] n o h t = tt
others_differ key own (e ∷ es) n o h t =
    (λ q. ground (arith, eq_iff e.id own), others_differ key own es n o h.1 (ground arith))

abbrev stop : Entry → Entry
stop e = record e { plan_status = some "inactive" }

abbrev IsElsewhere : String → Account → Type 0
IsElsewhere key a = is_active a ≡ true → norm a.id ≢ key

map-IsElsewhere :
    (bot : Option String) (key : String) (es : List Entry)
    → All (λ e. norm e.id ≢ key) es
    → All (IsElsewhere key) (map (account_from_entry bot) es)
unfolding account_from_entry
map-IsElsewhere bot key [] h = tt
map-IsElsewhere bot key (e ∷ es) h = (λ _. h.0, map-IsElsewhere bot key es h.1)

stopped-IsElsewhere :
    (bot : Option String) (key : String) (es : List Entry)
    → HasNormalIds es
    → no_repeats (ids (edit_first key stop es)) ≡ true
    → All (IsElsewhere key) (map (account_from_entry bot) (edit_first key stop es))
stopped-IsElsewhere bot key [] n u = tt
stopped-IsElsewhere bot key (e ∷ es) n u = elim (Bool-cases (is_entry key e)) [
  | inl hit ↦ rw hit (
    unfold account_from_entry in (λ q. ground arith),
    map-IsElsewhere bot key es (
        others_differ key e.id es ((eq_iff (norm e.id) key).0 hit) n.0 n.1
          (let u' = rw hit at u in ground arith)),
  )
  | inr miss ↦ rw miss (
    unfold account_from_entry in (λ _ q. ground (arith, eq_iff (norm e.id) key)),
    stopped-IsElsewhere bot key es n.1 (let u' = rw miss at u in ground arith),
  )
]

-- Once an account's plan is set to inactive, `get_account` returns no account with its id, whatever
-- address is asked for: an unpaid user is unroutable.
pub inactive_is_unroutable :
    (bot : Option String) (account_id email : String) (s s' : State) (prior : String) (a : Account)
    → ((entries : List Entry) → s.manifest ≡ some entries → HasNormalIds entries)
    → set_plan_status account_id "inactive" s ≡ ok (prior, s')
    → get_account bot email s' ≡ ok (some a)
    → norm a.id ≢ norm account_id
inactive_is_unroutable bot account_id email s s' prior a normal stopped found =
    let (entries, entry, there, hit, same, now) =
      set_plan_status_parts account_id "inactive" s s' prior stopped in
    let (entries', there', sound, owner) = get_account_parts bot email s' a found in
    let after : entries' ≡ edit account_id stop entries = ground arith in
    let sound' : is_sound (edit account_id stop entries) ≡ true = rw after at sound in
    first_owner-All (IsElsewhere (norm account_id)) (norm email)
      (select is_active (map (account_from_entry bot) entries')) a
      (All-select_keeps (IsElsewhere (norm account_id)) is_active
        (map (account_from_entry bot) entries')
        (rw after (
          stopped-IsElsewhere bot (norm account_id) entries (normal entries there) (ground arith))))
      owner (get_account_routes bot email s' a found).0
