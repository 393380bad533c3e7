-- ===== src/Egress/Opens.antt =====
-- A client's request for a host on the allowlist, up to its tunnel.
use Prim.Native.Char.{Char}
use Prim.Native.String.{◌++◌}
use text.Mathlib.TextLemmas.{cons-append, nil-append, append_assoc}
use email_summary.Prelude.{
  ◌≤◌, String, ◌≡◌, refl, sym, ap, ◌∙◌, Bool, true, false, not, some, List, [], ◌∷◌, str_eq, eq_iff,
  arith, ltb, All, some_pass, inl, inr, Bool-cases,
}
use email_summary.Prelude.Sets.{is_member}
use email_summary.Prelude.Split.{all_chars}
use email_summary.Prelude.Decimal.{show}
use email_summary.Prelude.Text.{lower, is_space}
use email_summary.Egress.{File, refusal, allowed, hosts, connect_port, trim_end, is_dot}
use email_summary.Egress.Authority.{is_plain, split_authority-show, all_chars-append}
use email_summary.Egress.Tunnels.{IsRoutable, check_all-IsRoutable, first_connected_total}
use email_summary.Egress.Proxy.{
  resolves_to, Network, Received, line, done, max_line_bytes, max_header_lines, line_size,
  is_line_end, read_line, is_blank, onto_words, first_word, words, skip_headers, authority, request,
  check_all, first_connected, connect, open_upstream, handle,
}

cons_is_given : (c : Char) (s : String) → str_eq (String.◌∷◌ c s) "" ≡ false
cons_is_given c s = elim (Bool-cases (str_eq (String.◌∷◌ c s) "")) [
  | inl empty ↦ absurd (cc ((eq_iff (String.◌∷◌ c s) "").0 empty))
  | inr given ↦ given
]

not_empty : (s t : String) → str_eq t "" ≡ false → str_eq (s ++ t) "" ≡ false
not_empty String.[] t h = rw (nil-append t) h
not_empty (String.◌∷◌ c s) t h = rw (cons-append c s t) (cons_is_given c (s ++ t))

trim_end-append :
    (p : Char → Bool) (s t : String)
    → str_eq (trim_end p t) "" ≡ false
    → trim_end p (s ++ t) ≡ s ++ trim_end p t
unfolding trim_end
trim_end-append p String.[] t h = rw (nil-append t, nil-append (trim_end p t)) refl
trim_end-append p (String.◌∷◌ c s) t h =
    let full : str_eq (s ++ trim_end p t) "" ≡ false = not_empty s (trim_end p t) h in
    rw (cons-append c s t, trim_end, trim_end-append p s t h, full, cons-append c s (trim_end p t))
      (ground arith)

first_word-append :
    (s t : String)
    → all_chars (λ c. not (is_blank c)) s ≡ true
    → first_word (s ++ String.◌∷◌ " " t) ≡ (s, onto_words (first_word t).0 (first_word t).1)
unfolding is_space
first_word-append String.[] t h = rw (nil-append (String.◌∷◌ " " t), first_word) refl
first_word-append (String.◌∷◌ c s) t h =
    let other : is_blank c ≡ false = ground arith in
    rw (cons-append c s (String.◌∷◌ " " t), first_word, other, first_word-append s t (ground arith))
      refl

abbrev target : String → String
target host = host ++ String.◌∷◌ ":" (show connect_port)

-- The first line that a client sends, and what is left of it.
abbrev pub request_line : String → String
request_line host = "CONNECT" ++ String.◌∷◌ " " (target host ++ " HTTP/1.1\r\n")

pieces :
    (host end : String)
    → "CONNECT" ++ String.◌∷◌ " " (target host ++ end)
      ≡ ("CONNECT" ++ String.◌∷◌ " " (target host)) ++ end
pieces host end =
    ap (λ s. "CONNECT" ++ s) (sym (cons-append " " (target host) end))
    ∙ sym (append_assoc "CONNECT" (String.◌∷◌ " " (target host)) end)

trim_end-request_line :
    (host : String)
    → trim_end is_line_end (request_line host)
      ≡ "CONNECT" ++ String.◌∷◌ " " (target host ++ " HTTP/1.1")
unfolding trim_end
trim_end-request_line host =
    ap (trim_end is_line_end) (pieces host " HTTP/1.1\r\n")
    ∙ trim_end-append is_line_end ("CONNECT" ++ String.◌∷◌ " " (target host)) " HTTP/1.1\r\n" refl
    ∙ sym (pieces host " HTTP/1.1")

target-has_no_blank :
    (host : String)
    → all_chars (λ c. not (is_blank c)) host ≡ true
    → all_chars (λ c. not (is_blank c)) (target host) ≡ true
unfolding is_space show
target-has_no_blank host h =
    all_chars-append (λ c. not (is_blank c)) host (String.◌∷◌ ":" (show connect_port)) h refl

words-request :
    (host : String)
    → all_chars (λ c. not (is_blank c)) host ≡ true
    → words ("CONNECT" ++ String.◌∷◌ " " (target host ++ " HTTP/1.1"))
      ≡ "CONNECT" ∷ target host ∷ "HTTP/1.1" ∷ []
unfolding words is_space
words-request host h =
    let given : str_eq (target host) "" ≡ false =
      not_empty host (String.◌∷◌ ":" (show connect_port)) (cons_is_given ":" (show connect_port)) in
    rw
      (
        first_word-append "CONNECT" (target host ++ " HTTP/1.1") refl,
        first_word-append (target host) "HTTP/1.1" (target-has_no_blank host h),
        given,
      )
      refl

request_returns :
    (host : String) (rest : List Received)
    → is_plain host ≡ true
    → all_chars (λ c. not (is_blank c)) host ≡ true
    → str_eq host "" ≡ false
    → lower (trim_end is_dot host) ≡ host
    → line_size (request_line host) ≤ max_line_bytes
    → skip_headers max_header_lines rest ≡ done tt
    → request (line (request_line host) ∷ rest) ≡ done (host, connect_port)
unfolding request read_line
request_returns host rest plain no_blank given normal short skipped =
    let fits : ltb max_line_bytes (line_size (request_line host)) ≡ false = ground arith in
    let full : str_eq (request_line host) "" ≡ false =
      not_empty "CONNECT" (String.◌∷◌ " " (target host ++ " HTTP/1.1\r\n"))
        (cons_is_given " " (target host ++ " HTTP/1.1\r\n")) in
    let port =
      split_authority-show host connect_port plain given normal (omega arith) (omega arith) in
    let decided : authority (target host) ≡ done (host, connect_port) = rw (authority, port) refl in
    rw (fits, full, trim_end-request_line host, words-request host no_blank, skipped, decided) refl

connect-some :
    (net : Network) (host : String) (addresses : List String) (address : String)
    → net.resolve host connect_port ≡ resolves_to addresses
    → check_all net addresses ≡ done tt
    → first_connected net connect_port addresses ≡ done address
    → connect net host connect_port ≡ done address
unfolding connect
connect-some net host [] address resolved checked dialled =
    absurd (unfold first_connected in ground arith)
connect-some net host (a ∷ more) address resolved checked dialled =
    rw (connect, resolved, checked, dialled) refl

-- The proxy opens the tunnel to a host on the allowlist: a request of the usual form for its port 443
-- returns, where the headers end in time, every address of the host is routable and one answers.
pub handle_opens :
    (file : File) (extra : String) (net : Network) (host : String) (rest : List Received)
    (listed addresses : List String)
    → is_plain host ≡ true
    → all_chars (λ c. not (is_blank c)) host ≡ true
    → str_eq host "" ≡ false
    → lower (trim_end is_dot host) ≡ host
    → line_size (request_line host) ≤ max_line_bytes
    → skip_headers max_header_lines rest ≡ done tt
    → hosts file extra ≡ some listed
    → is_member host listed ≡ true
    → net.resolve host connect_port ≡ resolves_to addresses
    → All (IsRoutable net) addresses
    → some_pass (λ a. net.connects a connect_port) addresses ≡ true
    → (address : String) × (handle file extra net (line (request_line host) ∷ rest)
        ≡ done (record { host = host; port = connect_port; address = address }))
unfolding handle open_upstream refusal connect
handle_opens file extra net host rest listed addresses plain no_blank given normal short skipped
      known there resolved outside answers =
    let asked = request_returns host rest plain no_blank given normal short skipped in
    let passed : refusal file extra host connect_port ≡ allowed = rw (given, known, there) refl in
    let checked = check_all-IsRoutable net addresses outside in
    let (address, dialled) = first_connected_total net connect_port addresses answers in
    let joined = connect-some net host addresses address resolved checked dialled in
    let opened : open_upstream file extra net host connect_port ≡ done address =
      rw (open_upstream, passed, joined) refl in
    (address, rw (asked, opened) refl)
