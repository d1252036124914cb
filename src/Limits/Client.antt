-- ===== src/Limits/Client.antt =====
-- `resolve_client_ip`: the address that a request is counted under. The standard library's
-- `ip_address` is a function from a text to the canonical text of the address, where it raises no
-- ValueError, and a network is a test of canonical texts.
use escrow_fx_marketplace.Common.{
  ◌≡◌, refl, Bool, true, false, Option, none, some, String, List, [], ◌∷◌, any, if◌then◌else◌,
}
use escrow_fx_marketplace.Domain.Errors.{Result, ok, err, value_error}
use mathlib.Core.List.{reverse}

abbrev pub Network : Type 0
Network = String → Bool

module _ (ip_address : String → Option String) where
  -- `_parse_ip`
  abbrev pub parse_ip : Option String → Option String
  parse_ip none = none
  parse_ip (some text) = ip_address text

  abbrev trusted_address : List Network → Option String → Result Bool
  trusted_address networks none = err value_error
  trusted_address networks (some address) = ok (any (λ network. network address) networks)

  -- `_is_trusted`
  unfoldable pub is_trusted : List Network → String → Result Bool
  is_trusted networks value = trusted_address networks (ip_address value)

  abbrev or_peer : Option String → String → String
  or_peer none peer = peer
  or_peer (some ip) peer = ip

  abbrev first_of : List String → Option String
  first_of [] = none
  first_of (x ∷ xs) = ip_address x

  -- One candidate: it is returned if it is an address outside the networks.
  unfoldable pub candidate_or : List Network → Option String → Result String → Result String
  candidate_or networks none rest = rest
  candidate_or networks (some parsed) rest = elim (trusted_address networks (ip_address parsed)) [
    | err e ↦ err e
    | ok trusted ↦ (if trusted then rest else ok parsed)
  ]

  -- `for candidate in reversed(forwarded)`, and what is returned behind the loop.
  unfoldable pub scan : List Network → List String → (otherwise : String) → Result String
  unfolding candidate_or
  scan networks [] otherwise = ok otherwise
  scan networks (candidate ∷ candidates) otherwise =
      candidate_or networks (ip_address candidate) (scan networks candidates otherwise)

  unfoldable pub resolve_peer :
      List Network → (peer : String) → List String → Result Bool → Result String
  unfolding scan
  resolve_peer networks peer forwarded (err e) = err e
  resolve_peer networks peer forwarded (ok false) = ok peer
  resolve_peer networks peer forwarded (ok true) =
      scan networks (reverse forwarded) (or_peer (first_of forwarded) peer)

  -- `resolve_client_ip`, on the stripped parts of the forwarding header.
  unfoldable pub resolve_client_ip :
      List Network → (direct_peer : Option String) → (forwarded : List String) → Result String
  unfolding is_trusted resolve_peer
  resolve_client_ip [] direct_peer forwarded = ok (or_peer (parse_ip direct_peer) "unknown")
  resolve_client_ip (network ∷ networks) direct_peer forwarded =
      let peer = or_peer (parse_ip direct_peer) "unknown" in
      resolve_peer (network ∷ networks) peer forwarded (is_trusted (network ∷ networks) peer)

  -- A request whose peer is unknown is not resolved to "unknown" where proxies are configured: the
  -- test of the networks raises.
  pub resolve_client_ip-unknown :
      (network : Network) (networks : List Network) (forwarded : List String)
      → ip_address "unknown" ≡ none
      → resolve_client_ip (network ∷ networks) none forwarded ≡ err value_error
  unfolding resolve_client_ip resolve_peer is_trusted
  resolve_client_ip-unknown network networks forwarded no_address = rw no_address refl

  -- The header is ignored where the peer is an address outside the networks.
  pub resolve_client_ip-untrusted :
      (network : Network) (networks : List Network) (peer ip : String) (forwarded : List String)
      → ip_address peer ≡ some ip
      → ip_address ip ≡ some ip
      → any (λ n. n ip) (network ∷ networks) ≡ false
      → resolve_client_ip (network ∷ networks) (some peer) forwarded ≡ ok ip
  unfolding resolve_client_ip resolve_peer is_trusted
  resolve_client_ip-untrusted network networks peer ip forwarded parsed canonical outside =
      rw (parsed, canonical, outside) refl
