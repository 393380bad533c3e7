-- ===== src/Egress/Tests.antt =====
-- Runs of the egress proxy at concrete inputs.
use email_summary.Prelude.{
  ℕ, String, ◌≡◌, refl, true, false, none, some, List, [], ◌∷◌, str_eq, arith, if◌then◌else◌, All,
}
use email_summary.Prelude.Sets.{is_member}
use email_summary.Prelude.Split.{split}
use email_summary.Prelude.Decimal.{show, read}
use email_summary.Prelude.Text.{strip, lower, norm, is_space}
use email_summary.Egress.{
  text, File, unreadable, listed, listed_in, extra_hosts, hosts, connect_port, split_authority,
  rpartition, trim_end, refusal,
}
use email_summary.Egress.Proxy.{
  Ip, unresolved, resolves_to, Network, Received, line, done, denied, crashed, read_line, words,
  skip_headers, request, check_all, first_connected, connect, open_upstream, Tunnel, handle,
  max_header_lines,
}
use email_summary.Egress.Tunnels.{IsRoutable, handle_sound}
use email_summary.Egress.Opens.{request_line, handle_opens}

abbrev outside : Ip
outside = record {
  is_private = false;
  is_loopback = false;
  is_link_local = false;
  is_multicast = false;
  is_reserved = false;
  is_unspecified = false;
}

-- One public address, and one of the machine itself.
abbrev net : Network
net = record {
  resolve = λ host port.
      if str_eq host "api.polar.sh"
      then resolves_to ("1.1.1.1" ∷ "1.0.0.1" ∷ [])
      else if str_eq host "rebound.example"
      then resolves_to ("127.0.0.1" ∷ [])
      else unresolved;
  ip_address = λ a.
      if str_eq a "127.0.0.1" then some (record outside { is_loopback = true }) else some outside;
  connects = λ a port. str_eq a "1.0.0.1";
}

abbrev allowlist : File
allowlist = listed (text "api.polar.sh" ∷ text "rebound.example" ∷ [])

abbrev polar : List Received
polar = line "CONNECT api.polar.sh:443 HTTP/1.1\r\n" ∷ line "Host: evil\r\n" ∷ line "\r\n" ∷ []

abbrev to_polar : Tunnel
to_polar = record { host = "api.polar.sh"; port = 443; address = "1.0.0.1" }

with_extra :
    hosts allowlist " Cosigner.Example ,,"
    ≡ some ("api.polar.sh" ∷ "rebound.example" ∷ "cosigner.example" ∷ [])
unfolding hosts listed_in extra_hosts split norm strip lower is_space
with_extra = refl

upper_case_is_invalid : listed_in (listed (text "Api.polar.sh" ∷ [])) ≡ none
unfolding listed_in norm strip lower is_space
upper_case_is_invalid = refl

literal_is_refused : split_authority "[::1]:443" ≡ none
unfolding split_authority rpartition
literal_is_refused = refl

polar_opens : handle allowlist "" net polar ≡ done to_polar
unfolding handle request read_line words skip_headers open_upstream refusal connect check_all
    first_connected hosts listed_in extra_hosts split norm strip lower split_authority rpartition
    trim_end read is_space
polar_opens = refl

rebound_is_denied :
    handle allowlist "" net (line "CONNECT rebound.example:443 HTTP/1.1\r\n" ∷ line "\r\n" ∷ [])
    ≡ denied 403
unfolding handle request read_line words skip_headers open_upstream refusal connect check_all
    first_connected hosts listed_in extra_hosts split norm strip lower split_authority rpartition
    trim_end read is_space
rebound_is_denied = refl

unlisted_is_denied :
    handle allowlist "" net (line "CONNECT api.polar.sh.evil:443 x\n" ∷ line "\n" ∷ []) ≡ denied 403
unfolding handle request read_line words skip_headers open_upstream refusal connect check_all
    first_connected hosts listed_in extra_hosts split norm strip lower split_authority rpartition
    trim_end read is_space
unlisted_is_denied = refl

invalid_allowlist_crashes : handle unreadable "" net polar ≡ crashed
unfolding handle request read_line words skip_headers open_upstream refusal connect check_all
    first_connected hosts listed_in extra_hosts split norm strip lower split_authority rpartition
    trim_end read is_space
invalid_allowlist_crashes = refl

handle_sound_example :
    ((found : List String) × (hosts allowlist "" ≡ some found)
      × (is_member "api.polar.sh" found ≡ true))
    × (to_polar.port ≡ connect_port)
    × ((addresses : List String) × (net.resolve "api.polar.sh" 443 ≡ resolves_to addresses)
        × (is_member "1.0.0.1" addresses ≡ true)
        × All (IsRoutable net) addresses
        × (net.connects "1.0.0.1" 443 ≡ true))
handle_sound_example = handle_sound allowlist "" net polar to_polar polar_opens

abbrev polar_address : String × ℕ
polar_address = ("api.polar.sh", 443)

asked_with_header : request polar ≡ done polar_address
unfolding handle request read_line words skip_headers open_upstream refusal connect check_all
    first_connected hosts listed_in extra_hosts split norm strip lower split_authority rpartition
    trim_end read is_space
asked_with_header = refl

asked_without :
    request (line "CONNECT api.polar.sh:443 HTTP/1.1\r\n" ∷ line "\n" ∷ []) ≡ done polar_address
unfolding handle request read_line words skip_headers open_upstream refusal connect check_all
    first_connected hosts listed_in extra_hosts split norm strip lower split_authority rpartition
    trim_end read is_space
asked_without = refl

no_headers : skip_headers max_header_lines (line "\r\n" ∷ []) ≡ done tt
unfolding skip_headers read_line trim_end
no_headers = refl

polar_is_listed : hosts allowlist "" ≡ some ("api.polar.sh" ∷ "rebound.example" ∷ [])
unfolding hosts listed_in extra_hosts split norm strip lower is_space
polar_is_listed = refl

handle_opens_example :
    (address : String) × (handle allowlist "" net
        (line (request_line "api.polar.sh") ∷ line "\r\n" ∷ [])
      ≡ done (record { host = "api.polar.sh"; port = connect_port; address = address }))
unfolding lower trim_end is_space show
handle_opens_example =
    handle_opens allowlist "" net "api.polar.sh" (line "\r\n" ∷ [])
      ("api.polar.sh" ∷ "rebound.example" ∷ []) ("1.1.1.1" ∷ "1.0.0.1" ∷ []) refl refl refl refl
      (omega arith) no_headers polar_is_listed refl refl
      ((outside, refl, refl), ((outside, refl, refl), tt)) refl
