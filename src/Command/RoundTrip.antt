-- ===== src/Command/RoundTrip.antt =====
-- A written-out grant command is read as it is meant.
use frps_gateway.Base.{
  ℕ, ◌^◌, ◌≤◌, ◌<◌, String, ◌≡◌, refl, true, false, some, [], ◌∷◌, arith, second,
}
use frps_gateway.Duration.{segments, split_from, total, format, split-total, total-pos}
use frps_gateway.Duration.Parse.{is_positive}
use frps_gateway.Duration.Parse.RoundTrip.{AllPlain, DecimalLaws, parse-format}
use frps_gateway.Command.{
  ChatText, add_ip, succeed, has_alias, normalize, sanitize_ip_token, is_public, parse_command,
  menu_aliases, add_aliases,
}

module _ (lib : ChatText) (format_int : ℕ → String) where
  -- A command to grant a public address for a duration of a second or more, written with the text of the
  -- address and the text of the duration, is read as a grant of that address for what the text of the
  -- duration says.
  pub parse_command-add :
      DecimalLaws lib.floats format_int
      → ((s : String) → AllPlain s → lib.lower (lib.trim s) ≡ s)
      → (raw head : String) (ip : lib.Ip) (ttl : ℕ)
      → lib.fields (normalize lib raw) ≡ head ∷ lib.show_ip ip ∷ format format_int ttl ∷ []
      → has_alias lib menu_aliases (lib.lower head) ≡ false
      → has_alias lib add_aliases (lib.lower head) ≡ true
      → lib.parse_ip (sanitize_ip_token lib (lib.show_ip ip)) ≡ some ip
      → is_public lib ip ≡ true
      → second ≤ ttl
      → ttl < 2 ^ 53
      → parse_command lib raw
        ≡ succeed (record {
          action = add_ip;
          ip = lib.show_ip ip;
          ttl = total (split_from segments 2 ttl);
        })
  unfolding parse_command
  parse_command-add laws plain raw head ip ttl words not_menu is_add shown public long bound =
      let read = parse-format lib.floats format_int laws lib.trim lib.lower plain ttl bound in
      let t = total (split_from segments 2 ttl) in
      let positive : is_positive t ≡ true =
        ground (arith, total-pos ttl long, (split-total ttl).0, bound) in
      rw (words, not_menu, is_add, shown, public, read, positive) refl
