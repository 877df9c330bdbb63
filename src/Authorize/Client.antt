-- ===== src/Authorize/Client.antt =====
-- The address that authorize/server.go takes a request to come from.
use frps_gateway.Base.{
  String, ◌≡◌, refl, sym, ◌∙◌, true, false, Option, none, some, List, [], ◌∷◌, ◌++◌, All,
  Bool-cases, inl, inr,
}
use mathlib.Core.List.{append_assoc}
use frps_gateway.Authorize.{
  Net, HttpRequest, ClientIp, found, ClientError, reverse_onto, from_last, is_trusted,
  grantable_public_ip, public_or, or_rest, first_untrusted, from_peer, client_ip, peer_host,
  forwarded_not_public, peer_not_public,
}

reverse_onto-append :
    (acc xs ys : List String) → reverse_onto acc (xs ++ ys) ≡ reverse_onto (reverse_onto acc xs) ys
reverse_onto-append acc [] ys = refl
reverse_onto-append acc (x ∷ xs) ys = reverse_onto-append (x ∷ acc) xs ys

reverse_onto-acc : (acc xs : List String) → reverse_onto acc xs ≡ reverse_onto [] xs ++ acc
reverse_onto-acc acc [] = refl
reverse_onto-acc acc (x ∷ xs) =
    rw (reverse_onto-acc (x ∷ acc) xs, reverse_onto-acc (x ∷ []) xs)
      (sym (append_assoc (reverse_onto [] xs) (x ∷ []) acc))

All-reverse_onto :
    (P : String → Type 0) (acc xs : List String)
    → All P acc
    → All P xs
    → All P (reverse_onto acc xs)
All-reverse_onto P acc [] h k = h
All-reverse_onto P acc (x ∷ xs) h k = All-reverse_onto P (x ∷ acc) xs (k.0, h) k.1

module _ (net : Net) (trusted : List net.Prefix) where
  -- An address that was found is granted, and is no proxy.
  abbrev pub Acceptable : String → Type 0
  Acceptable s =
      (a : net.Addr) × (s ≡ net.show a)
      × (grantable_public_ip net trusted a ≡ true)
      × (is_trusted net trusted a ≡ false)

  public_or_lem :
      (x : ClientError) (a : net.Addr) (s : String)
      → is_trusted net trusted a ≡ false
      → public_or net trusted x a ≡ found s
      → Acceptable s
  public_or_lem x a s out h = elim (Bool-cases (grantable_public_ip net trusted a)) [
    | inl public ↦ (a, found_injective (sym (rw public at h)), public, out)
    | inr private ↦ cc (rw private at h)
  ]
    where
      found_injective : {s t : String} → found s ≡ found t → s ≡ t
      found_injective q = cc

  or_rest_lem :
      (o : Option net.Addr) (rest : ClientIp) (s : String)
      → (rest ≡ found s → Acceptable s)
      → or_rest net trusted o rest ≡ found s
      → Acceptable s
  or_rest_lem none rest s k h = k h
  or_rest_lem (some a) rest s k h = elim (Bool-cases (is_trusted net trusted (net.unmap a))) [
    | inl proxy ↦ k (rw proxy at h)
    | inr out ↦ public_or_lem forwarded_not_public (net.unmap a) s out (rw out at h)
  ]

  first_untrusted_lem :
      (parts : List String) (s : String)
      → first_untrusted net trusted parts ≡ found s
      → Acceptable s
  unfolding first_untrusted
  first_untrusted_lem [] s h = cc h
  first_untrusted_lem (part ∷ parts) s h =
      or_rest_lem (net.parse_addr (net.trim_space part)) (first_untrusted net trusted parts) s
        (first_untrusted_lem parts s) h

  from_peer_lem :
      (o : Option net.Addr) (r : HttpRequest) (s : String)
      → from_peer net trusted o r ≡ found s
      → Acceptable s
  from_peer_lem none r s h = cc h
  from_peer_lem (some peer) r s h = elim (Bool-cases (is_trusted net trusted (net.unmap peer))) [
    | inl proxy ↦
        first_untrusted_lem (from_last (net.split_commas r.x_forwarded_for)) s (rw proxy at h)
    | inr out ↦ public_or_lem peer_not_public (net.unmap peer) s out (rw out at h)
  ]

  -- An address that is taken for the client's is a public unicast address, and not one of the trusted
  -- proxies.
  pub client_ip-Acceptable :
      (r : HttpRequest) (s : String) → client_ip net trusted r ≡ found s → Acceptable s
  unfolding client_ip
  client_ip-Acceptable r s h =
      from_peer_lem
        (net.parse_addr (peer_host net trusted (net.split_host_port r.remote_addr) r.remote_addr)) r
        s h

  -- The part is no address, or that of a trusted proxy.
  pub data Skipped (part : String) : Type 0 where
    unparsed : net.parse_addr (net.trim_space part) ≡ none → Skipped part
    proxied :
        (a : net.Addr)
        → net.parse_addr (net.trim_space part) ≡ some a
        → is_trusted net trusted (net.unmap a) ≡ true
        → Skipped part

  first_untrusted-skip :
      (skip parts : List String)
      → All Skipped skip
      → first_untrusted net trusted (skip ++ parts) ≡ first_untrusted net trusted parts
  unfolding first_untrusted
  first_untrusted-skip [] parts h = refl
  first_untrusted-skip (s ∷ skip) parts (unparsed no_addr, h) =
      rw no_addr (first_untrusted-skip skip parts h)
  first_untrusted-skip (s ∷ skip) parts (proxied a parsed proxy, h) =
      rw (parsed, proxy) (first_untrusted-skip skip parts h)

  -- Behind a trusted proxy, the client is the rightmost address of X-Forwarded-For that is not a trusted
  -- proxy's: what stands to its left in the header, which the client may have made up, has no effect.
  pub client_ip-rightmost :
      (r : HttpRequest) (peer a : net.Addr) (left : List String) (part : String)
      (right : List String)
      → net.parse_addr (peer_host net trusted (net.split_host_port r.remote_addr) r.remote_addr)
        ≡ some peer
      → is_trusted net trusted (net.unmap peer) ≡ true
      → net.split_commas r.x_forwarded_for ≡ left ++ part ∷ right
      → net.parse_addr (net.trim_space part) ≡ some a
      → is_trusted net trusted (net.unmap a) ≡ false
      → All Skipped right
      → client_ip net trusted r ≡ public_or net trusted forwarded_not_public (net.unmap a)
  unfolding client_ip first_untrusted
  client_ip-rightmost r peer a left part right at_peer proxy header parsed out skipped =
      rw
        (
          at_peer,
          proxy,
          header,
          reverse_onto-append [] left (part ∷ right),
          reverse_onto-acc (part ∷ reverse_onto [] left) right,
        )
        (first_untrusted-skip (reverse_onto [] right) (part ∷ reverse_onto [] left)
            (All-reverse_onto Skipped [] right tt skipped)
          ∙ rw (parsed, out) refl)
