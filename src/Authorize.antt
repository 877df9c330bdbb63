-- ===== src/Authorize.antt =====
-- authorize/server.go: the page behind a one-time link. The addresses are those of net/netip, given by
-- their operations; a body is a text, and so is a page.
pub mod Client
pub mod Link
pub mod Confirm
mod Tests
use frps_gateway.Base.{
  ℕ, zero, suc, ◌+◌, ◌-◌, String, ◌<>◌, Bool, true, false, ◌&&◌, ◌||◌, not, Option, none, some,
  List, [], ◌∷◌, ◌++◌, leb, ◌==◌, if◌then◌else◌, has,
}

-- What the handlers use of net, net/netip, strings and encoding/base64.
pub record Net : Type 1 where
  pub Addr : Type 0
  pub parse_addr : String → Option Addr
  pub unmap : Addr → Addr
  pub show : Addr → String
  pub is_4 : Addr → Bool
  pub is_valid : Addr → Bool
  pub is_global_unicast : Addr → Bool
  pub is_private : Addr → Bool
  pub is_loopback : Addr → Bool
  pub is_link_local_unicast : Addr → Bool
  pub is_multicast : Addr → Bool
  pub Prefix : Type 0
  pub contains_addr : Prefix → Addr → Bool
  pub split_host_port : String → Option String
  pub trim_space : String → String
  pub split_commas : String → List String

-- What a request carries.
pub record HttpRequest : Type 0 where
  pub remote_addr : String
  pub x_forwarded_for : String
  pub form_ipv4 : String
  pub path_token : String

-- clientIP returns an error at three places, and where the peer does not parse.
pub data ClientError : Type 0 where
  bad_peer peer_not_public forwarded_not_public no_untrusted : ClientError

pub data ClientIp : Type 0 where
  found : String → ClientIp
  refused : ClientError → ClientIp

abbrev pub reverse_onto : List String → List String → List String
reverse_onto acc [] = acc
reverse_onto acc (a ∷ rest) = reverse_onto (a ∷ acc) rest

-- The parts from the last to the first.
abbrev pub from_last : List String → List String
from_last parts = reverse_onto [] parts

module _ (net : Net) (trusted : List net.Prefix) where
  -- isTrusted
  abbrev pub is_trusted : net.Addr → Bool
  is_trusted a = has (λ p. net.contains_addr p a) trusted

  -- grantablePublicIP
  abbrev pub grantable_public_ip : net.Addr → Bool
  grantable_public_ip a =
      net.is_valid a
      && net.is_global_unicast a
      && not (net.is_private a)
      && not (net.is_loopback a)
      && not (net.is_link_local_unicast a)
      && not (net.is_multicast a)

  abbrev pub public_or : ClientError → net.Addr → ClientIp
  public_or x a = if grantable_public_ip a then found (net.show a) else refused x

  -- One part of the header, before the parts to its left.
  abbrev pub or_rest : Option net.Addr → ClientIp → ClientIp
  or_rest none rest = rest
  or_rest (some a) rest =
      if is_trusted (net.unmap a) then rest else public_or forwarded_not_public (net.unmap a)

  -- The loop of `clientIP` over the parts of X-Forwarded-For.
  pub first_untrusted : List String → ClientIp
  first_untrusted [] = refused no_untrusted
  first_untrusted (part ∷ parts) =
      or_rest (net.parse_addr (net.trim_space part)) (first_untrusted parts)

  abbrev pub peer_host : Option String → String → String
  peer_host none addr = addr
  peer_host (some host) addr = host

  abbrev pub from_peer : Option net.Addr → HttpRequest → ClientIp
  from_peer none r = refused bad_peer
  from_peer (some peer) r =
      if is_trusted (net.unmap peer)
      then first_untrusted (from_last (net.split_commas r.x_forwarded_for))
      else public_or peer_not_public (net.unmap peer)

  -- clientIP
  unfoldable pub client_ip : HttpRequest → ClientIp
  client_ip r =
      from_peer (net.parse_addr (peer_host (net.split_host_port r.remote_addr) r.remote_addr)) r

  abbrev pub valid_v4 : Option net.Addr → String
  valid_v4 none = ""
  valid_v4 (some a) = if net.is_4 a && grantable_public_ip a then net.show a else ""

  -- reportedIPv4
  abbrev pub reported_ipv4 : HttpRequest → String
  reported_ipv4 r = valid_v4 (net.parse_addr (net.trim_space r.form_ipv4))

  -- The addresses that `post` asks for.
  abbrev pub requested_ips : HttpRequest → String → List String
  requested_ips r ip =
      let v4 = reported_ipv4 r in if v4 == "" || v4 == ip then ip ∷ [] else ip ∷ v4 ∷ []
