-- ===== src/Egress/Tunnels.antt =====
-- Which tunnels the proxy opens.
use Prim.Native.Char.{code}
use email_summary.Prelude.{
  ℕ, String, ◌≡◌, refl, sym, ap, ◌∙◌, true, ◌⊎◌, some, List, [], ◌∷◌, eq_iff, arith, All, some_pass,
  inl, inr, Bool-cases, Option-cases,
}
use email_summary.Prelude.Sets.{is_member}
use email_summary.Egress.{
  File, Permission, EgressRefusal, raises, refused, allowed, refusal, hosts, connect_port,
}
use email_summary.Egress.Proxy.{
  Ip, Resolved, unresolved, unencodable, resolves_to, Network, Received, line, times_out, Ending,
  done, denied, fails, crashed, ◌>>=◌, max_header_lines, read_line, words, skip_headers,
  connect_target, authority, request, is_routable, check_all, first_connected, connect,
  open_upstream, Tunnel, handle,
}

chain_done {ℓ ℓ'} :
    {A : Type ℓ} {B : Type ℓ'} {b : B} (next : A → Ending B) (step : Ending A)
    → (step >>= next) ≡ done b
    → (a : A) × (step ≡ done a) × (next a ≡ done b)
chain_done next (done a) h = (a, refl, h)
chain_done next (denied code) h = cc
chain_done next fails h = cc
chain_done next crashed h = cc

-- The proxy dials the address.
abbrev pub IsRoutable : Network → String → Type 0
IsRoutable net address = (ip : Ip) × (net.ip_address address ≡ some ip) × (is_routable ip ≡ true)

check_all-done :
    (net : Network) (addresses : List String)
    → check_all net addresses ≡ done tt
    → All (IsRoutable net) addresses
unfolding check_all
check_all-done net [] h = tt
check_all-done net (address ∷ addresses) h = elim (Option-cases (net.ip_address address)) [
  | inl bad ↦ absurd (ground arith)
  | inr (ip, good) ↦ elim (Bool-cases (is_routable ip)) [
    | inl outside ↦ ((ip, good, outside), check_all-done net addresses (ground arith))
    | inr inside ↦ absurd (ground arith)
  ]
]

pub check_all-IsRoutable :
    (net : Network) (addresses : List String)
    → All (IsRoutable net) addresses
    → check_all net addresses ≡ done tt
unfolding check_all
check_all-IsRoutable net [] h = refl
check_all-IsRoutable net (address ∷ addresses) h =
    let (ip, parsed, outside) = h.0 in
    rw (check_all, parsed, outside, check_all-IsRoutable net addresses h.1) refl

first_connected-done :
    (net : Network) (port : ℕ) (addresses : List String) (address : String)
    → first_connected net port addresses ≡ done address
    → (is_member address addresses ≡ true) × (net.connects address port ≡ true)
unfolding first_connected
first_connected-done net port [] address h = cc
first_connected-done net port (a ∷ addresses) address h = elim (Bool-cases (net.connects a port)) [
  | inl answers ↦ (ground (arith, eq_iff address a), ground arith)
  | inr silent ↦
      let (later, answers) = first_connected-done net port addresses address (ground arith) in
      (ground arith, answers)
]

pub first_connected_total :
    (net : Network) (port : ℕ) (addresses : List String)
    → some_pass (λ a. net.connects a port) addresses ≡ true
    → (address : String) × (first_connected net port addresses ≡ done address)
unfolding first_connected
first_connected_total net port [] h = cc
first_connected_total net port (a ∷ addresses) h = elim (Bool-cases (net.connects a port)) [
  | inl answers ↦ (a, rw answers refl)
  | inr silent ↦
      let (address, found) = first_connected_total net port addresses (ground arith) in
      (address, rw (silent, found) refl)
]

Permission-cases :
    (a : Permission) → (a ≡ allowed) ⊎ ((a ≡ raises) ⊎ ((r : EgressRefusal) × (a ≡ refused r)))
Permission-cases allowed = inl refl
Permission-cases raises = inr (inl refl)
Permission-cases (refused r) = inr (inr (r, refl))

-- What a host that `refusal` lets pass has.
refusal_allowed :
    (file : File) (extra host : String) (port : ℕ)
    → refusal file extra host port ≡ allowed
    → (found : List String) × (hosts file extra ≡ some found)
      × (is_member host found ≡ true)
      × (port ≡ connect_port)
unfolding refusal
refusal_allowed file extra host port h = elim (Option-cases (hosts file extra)) [
  | inl bad ↦ absurd (ground arith)
  | inr (found, good) ↦ (found, good, ground arith, ground arith)
]

Resolved-cases :
    (r : Resolved)
    → (r ≡ unresolved)
      ⊎ ((r ≡ unencodable) ⊎ ((addresses : List String) × (r ≡ resolves_to addresses)))
Resolved-cases unresolved = inl refl
Resolved-cases unencodable = inr (inl refl)
Resolved-cases (resolves_to addresses) = inr (inr (addresses, refl))

connect-done :
    (net : Network) (host : String) (port : ℕ) (address : String)
    → connect net host port ≡ done address
    → (addresses : List String) × (net.resolve host port ≡ resolves_to addresses)
      × (is_member address addresses ≡ true)
      × All (IsRoutable net) addresses
      × (net.connects address port ≡ true)
unfolding connect
connect-done net host port address h = elim (Resolved-cases (net.resolve host port)) [
  | inl bad ↦ absurd (ground arith)
  | inr (inl odd) ↦ absurd (ground arith)
  | inr (inr ([], good)) ↦ absurd (ground arith)
  | inr (inr (a ∷ rest, good)) ↦
      let all_checked : (check_all net (a ∷ rest)
            >>= (λ checked. first_connected net port (a ∷ rest)))
          ≡ done address =
        ground arith in
      let (u, checked, dialled) =
        chain_done (λ checked. first_connected net port (a ∷ rest)) (check_all net (a ∷ rest))
          all_checked in
      let (there, answers) = first_connected-done net port (a ∷ rest) address dialled in
      (a ∷ rest, good, there, check_all-done net (a ∷ rest) checked, answers)
]

-- A tunnel goes to a host that is, letter for letter, on the allowlist, on port 443, over an address
-- of the resolver's answer, none of which is inside the machine or a private range.
pub handle_sound :
    (file : File) (extra : String) (net : Network) (input : List Received) (tunnel : Tunnel)
    → handle file extra net input ≡ done tunnel
    → ((found : List String) × (hosts file extra ≡ some found)
        × (is_member tunnel.host found ≡ true))
      × (tunnel.port ≡ connect_port)
      × ((addresses : List String) × (net.resolve tunnel.host tunnel.port ≡ resolves_to addresses)
          × (is_member tunnel.address addresses ≡ true)
          × All (IsRoutable net) addresses
          × (net.connects tunnel.address tunnel.port ≡ true))
unfolding handle open_upstream
handle_sound file extra net input tunnel h =
    let ((host, port), asked, opened) = chain_done _ (request input) h in
    let (address, upstream, same) = chain_done _ (open_upstream file extra net host port) opened in
    let tunnel_is : tunnel ≡ record { host = host; port = port; address = address } = cc in
    elim (Permission-cases (refusal file extra host port)) [
      | inl passed ↦
          let (found, listed, there, https) = refusal_allowed file extra host port passed in
          rw tunnel_is
            ((found, listed, there), https, connect-done net host port address (ground arith))
      | inr (inl broken) ↦ absurd (ground arith)
      | inr (inr (reason, no_host)) ↦ absurd (ground arith)
    ]

-- The headers choose nothing: two requests with one first line that both return ask for one
-- destination, whatever follows in them.
pub request_ignores_headers :
    (first : Received) (a b : List Received) (asked asked' : String × ℕ)
    → request (first ∷ a) ≡ done asked
    → request (first ∷ b) ≡ done asked'
    → asked ≡ asked'
unfolding request read_line
request_ignores_headers times_out a b asked asked' h h' = cc
request_ignores_headers (line raw) a b asked asked' h h' =
    let (read, first, next) = chain_done _ (read_line (line raw ∷ a)) h in
    let (read', first', next') = chain_done _ (read_line (line raw ∷ b)) h' in
    let (target, of_line, after) = chain_done _ (connect_target (words read.0)) next in
    let (target', of_line', after') = chain_done _ (connect_target (words read'.0)) next' in
    let (u, skipped, last) = chain_done _ (skip_headers max_header_lines read.1) after in
    let (u', skipped', last') = chain_done _ (skip_headers max_header_lines read'.1) after' in
    let one_line : read.0 ≡ read'.0 = ground arith in
    let one_target : done target ≡ done target' =
      sym of_line ∙ ap (λ l. connect_target (words l)) one_line ∙ of_line' in
    let both : done asked ≡ done asked' = sym last ∙ ap authority (ground arith) ∙ last' in
    ground arith
