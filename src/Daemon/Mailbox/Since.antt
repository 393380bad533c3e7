-- ===== src/Daemon/Mailbox/Since.antt =====
-- What lies between the cursor of a fetch and the history id it answers.
use email_summary.Prelude.{
  ◌+◌, String, ◌≡◌, refl, sym, ap, subst, ◌∙◌, Bool, true, false, Option, none, some, List, [],
  ◌++◌, str_eq, arith, count, if◌then◌else◌, inl, inr, Bool-cases, Option-cases,
}
use email_summary.Accounts.Store.{given, or_text}
use email_summary.Daemon.Mailbox.{
  Reply, http_error, replied, HistoryPage, Pages, Gmail, Payload, Listing, from_keys, history_list,
  fetch_listed, bootstrap, fetch_since_history,
}
use email_summary.Daemon.Mailbox.History.{
  ending, messages_of, inbox_ids, last_named, read_history_listed, read_history_refused,
}
use email_summary.Daemon.Mailbox.Fetched.{
  chain_replied, count-append, by_id, missed, latest_given, payload_of, history_list_stale,
  history_list_listed, count-fetch_listed,
}

-- The distinct ids that a listing names in the inbox.
abbrev pub listed_ids : Pages → List String
listed_ids pages = from_keys (inbox_ids (messages_of pages))

-- The history that Gmail answers by: where a listing from a cursor is answered to its end, its distinct
-- inbox messages are those between the cursor and the last history id that it names; and where the
-- cursor is refused as too old, the current history id lies a gap further.
abbrev pub Continues : (String → List String) → (String → List String) → Gmail → Type 0
Continues upto gap gmail =
    ((last : String) (p : HistoryPage)
      → ending (gmail.pages last) ≡ replied p
      → upto (last_named (gmail.pages last) last) ≡ upto last ++ listed_ids (gmail.pages last))
    × ((last id : String)
        → ending (gmail.pages last) ≡ http_error 404
        → gmail.current ≡ replied (some id)
        → upto id ≡ upto last ++ gap last)

abbrev pub next_cursor : String → Payload → String
next_cursor last p = if given p.history_id then or_text p.history_id "" else last

-- The ids that a pass leaves behind: what it misses of a listing that is answered, and the gap where the
-- cursor is refused and there is a history id to go on from.
abbrev pub left_behind : (String → List String) → Gmail → String → Payload → List String
left_behind gap gmail last p = elim (ending (gmail.pages last)) [
  | replied page ↦ missed gmail (listed_ids (gmail.pages last))
  | http_error code ↦ if given p.history_id then gap last else []
  | _ ↦ []
]

abbrev after_listing : Gmail → Option Listing → Reply Payload
after_listing gmail o = elim o [ none ↦ bootstrap gmail | some l ↦ fetch_listed gmail l ]

module _ (upto gap : String → List String) (gmail : Gmail) (q : String → Bool) where
  -- What a fetch brings and what it leaves behind lie between the two cursors.
  abbrev pub Accounts : String → Payload → Type 0
  Accounts last p =
      (count q (upto last) + count (by_id q) p.emails + count q (left_behind gap gmail last p)
        ≡ count q (upto (next_cursor last p)))
      × (str_eq (next_cursor last p) "" ≡ false)

  bootstrap-Accounts :
      (last : String) (id : Option String)
      → str_eq last "" ≡ false
      → Continues upto gap gmail
      → ending (gmail.pages last) ≡ http_error 404
      → gmail.current ≡ replied id
      → Accounts last (record { emails = []; sent = []; history_id = id; stale = true })
  bootstrap-Accounts last none has continues gone there = rw (left_behind, gone) (omega arith, has)
  bootstrap-Accounts last (some id) has continues gone there = elim (Bool-cases (str_eq id "")) [
    | inl empty ↦ rw (left_behind, gone, empty) (omega arith, has)
    | inr full ↦
        rw (left_behind, gone, full)
          (
            omega (
              arith,
              ap (count q) (continues.1 last id gone there),
              count-append q (upto last) (gap last),
            ),
            full,
          )
  ]

  fetch_listed-Accounts :
      (last : String) (l : Listing) (p : Payload)
      → str_eq last "" ≡ false
      → Continues upto gap gmail
      → history_list (gmail.pages last) last ≡ replied (some l)
      → fetch_listed gmail l ≡ replied p
      → Accounts last p
  fetch_listed-Accounts last l p has continues listed fetched =
      let (l', there, same) = history_list_listed (gmail.pages last) last l listed in
      let (brought, id, current) = count-fetch_listed gmail q l p fetched in
      let full : str_eq l'.latest "" ≡ false = latest_given (gmail.pages last) last l' has there in
      let ((page, answered), ids, named) = read_history_listed (gmail.pages last) last l' there in
      let latest : l.latest ≡ l'.latest = ap (λ (x : Listing). x.latest) same in
      let added : l.added ≡ listed_ids (gmail.pages last) =
        ap (λ (x : Listing). x.added) same ∙ ap from_keys ids in
      let next : next_cursor last p ≡ l'.latest = rw (id, latest, full) refl in
      let behind : left_behind gap gmail last p ≡ missed gmail (listed_ids (gmail.pages last)) =
        rw (left_behind, answered) refl in
      (
        omega (
          arith,
          ap (count q) behind,
          brought,
          ap (count q) added,
          ap (λ ids. count q (missed gmail ids)) added,
          ap (λ c. count q (upto c)) (next ∙ named),
          ap (count q) (continues.0 last page answered),
          count-append q (upto last) (listed_ids (gmail.pages last)),
        ),
        ap (λ c. str_eq c "") next ∙ full,
      )

  pub fetch_since_history-Accounts :
      (last : String) (p : Payload)
      → str_eq last "" ≡ false
      → Continues upto gap gmail
      → fetch_since_history gmail last ≡ replied p
      → Accounts last p
  unfolding fetch_since_history
  fetch_since_history-Accounts last p has continues h =
      let (o, listed, next) = chain_replied (history_list (gmail.pages last) last) _ p h in
      elim (Option-cases o) [
        | inr (l, there) ↦
            fetch_listed-Accounts last l p has continues (listed ∙ ap (λ o. replied o) there)
              (sym (ap (after_listing gmail) there) ∙ next)
        | inl stale ↦
            let boot : bootstrap gmail ≡ replied p = sym (ap (after_listing gmail) stale) ∙ next in
            let (id, current, made) = chain_replied gmail.current _ p boot in
            subst (Accounts last) (payload_of made) (
              bootstrap-Accounts last id has continues
                (read_history_refused (gmail.pages last) last 404
                  (history_list_stale (gmail.pages last) last (listed ∙ ap (λ o. replied o) stale)))
                current)
      ]
