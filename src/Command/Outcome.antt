-- ===== src/Command/Outcome.antt =====
-- What every outcome of command/parser.go, `Parse`, satisfies.
use frps_gateway.Base.{
  String, ◌≡◌, refl, true, ◌⊎◌, inl, inr, Option, none, some, List, [], ◌∷◌, Bool-cases,
}
use frps_gateway.Duration.Parse.{Parsed, parsed, invalid, is_positive}
use frps_gateway.Duration.Parse
use frps_gateway.Command.{
  ChatText, Action, add_ip, remove_ip, help, Command, ParseResult, plain_command, has_alias,
  normalize, sanitize_ip_token, is_public, with_ttl, add_public, add_address, parse_add,
  remove_address, parse_remove, parse_apply, parse_fields, parse_command, menu_aliases, add_aliases,
  remove_aliases, list_aliases, apply_aliases,
}

module _ (lib : ChatText) where
  -- A command that may be run: one on an address has the text of an address, and of a public one to
  -- grant it; only a grant has a time to live, which is the default or positive.
  abbrev pub Wellformed : Command → Action → Type 0
  Wellformed c add_ip =
      (ip : lib.Ip) × (c.ip ≡ lib.show_ip ip)
      × (is_public lib ip ≡ true)
      × ((c.ttl ≡ 0) ⊎ (is_positive c.ttl ≡ true))
  Wellformed c remove_ip = (ip : lib.Ip) × (c.ip ≡ lib.show_ip ip) × (c.ttl ≡ 0)
  Wellformed c _ = c ≡ plain_command c.action

  abbrev pub Valid : ParseResult → Type 0
  Valid (c, some x) = c ≡ plain_command help
  Valid (c, none) = Wellformed c c.action

  with_ttl-Valid :
      (ip : lib.Ip) (word : String) (p : Parsed)
      → is_public lib ip ≡ true
      → Valid (with_ttl lib ip word p)
  with_ttl-Valid ip word (invalid x) public = refl
  with_ttl-Valid ip word (parsed t) public = elim (Bool-cases (is_positive t)) [
    | inl positive ↦ rw positive (ip, refl, public, inr positive)
    | inr other ↦ rw other refl
  ]

  add_public-Valid :
      (ip : lib.Ip) (ttls : List String) → is_public lib ip ≡ true → Valid (add_public lib ip ttls)
  add_public-Valid ip [] public = (ip, refl, public, inl refl)
  add_public-Valid ip (word ∷ rest) public =
      with_ttl-Valid ip word (Parse.parse lib.floats lib.trim lib.lower word) public

  add_address-Valid :
      (o : Option lib.Ip) (word : String) (ttls : List String) → Valid (add_address lib o word ttls)
  add_address-Valid none word ttls = refl
  add_address-Valid (some ip) word ttls = elim (Bool-cases (is_public lib ip)) [
    | inl public ↦ rw public (add_public-Valid ip ttls public)
    | inr other ↦ rw other refl
  ]

  parse_add-Valid : (args : List String) → Valid (parse_add lib args)
  parse_add-Valid [] = refl
  parse_add-Valid (word ∷ []) =
      add_address-Valid (lib.parse_ip (sanitize_ip_token lib word)) word []
  parse_add-Valid (word ∷ ttl ∷ []) =
      add_address-Valid (lib.parse_ip (sanitize_ip_token lib word)) word (ttl ∷ [])
  parse_add-Valid (word ∷ ttl ∷ more ∷ rest) = refl

  remove_address-Valid : (o : Option lib.Ip) (word : String) → Valid (remove_address lib o word)
  remove_address-Valid none word = refl
  remove_address-Valid (some ip) word = (ip, refl, refl)

  parse_remove-Valid : (args : List String) → Valid (parse_remove lib args)
  parse_remove-Valid [] = refl
  parse_remove-Valid (word ∷ []) =
      remove_address-Valid (lib.parse_ip (sanitize_ip_token lib word)) word
  parse_remove-Valid (word ∷ more ∷ rest) = refl

  parse_apply-Valid : (args : List String) → Valid (parse_apply lib args)
  parse_apply-Valid [] = refl
  parse_apply-Valid (word ∷ rest) = refl

  parse_fields-Valid : (words : List String) → Valid (parse_fields lib words)
  parse_fields-Valid [] = refl
  parse_fields-Valid (first ∷ args) =
      let head = lib.lower first in
      elim (Bool-cases (has_alias lib menu_aliases head)) [
        | inl hit ↦ rw hit refl
        | inr not_menu ↦ elim (Bool-cases (has_alias lib add_aliases head)) [
          | inl hit ↦ rw (not_menu, hit) (parse_add-Valid args)
          | inr not_add ↦ elim (Bool-cases (has_alias lib remove_aliases head)) [
            | inl hit ↦ rw (not_menu, not_add, hit) (parse_remove-Valid args)
            | inr not_remove ↦ elim (Bool-cases (has_alias lib list_aliases head)) [
              | inl hit ↦ rw (not_menu, not_add, not_remove, hit) refl
              | inr not_list ↦ elim (Bool-cases (has_alias lib apply_aliases head)) [
                | inl hit ↦
                    rw (not_menu, not_add, not_remove, not_list, hit) (parse_apply-Valid args)
                | inr no_alias ↦ rw (not_menu, not_add, not_remove, not_list, no_alias) refl
              ]
            ]
          ]
        ]
      ]

  -- A message that is refused asks for help; one that is accepted names an address only where the
  -- operation takes one, a public one if it is to be granted, with a time to live that is the default or
  -- positive.
  pub parse_command-Valid : (raw : String) → Valid (parse_command lib raw)
  unfolding parse_command
  parse_command-Valid raw = parse_fields-Valid (lib.fields (normalize lib raw))
