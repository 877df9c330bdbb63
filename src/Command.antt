-- ===== src/Command.antt =====
-- command/parser.go: what a chat message asks for. The texts are those of the source; regexp, strings,
-- unicode and net are parameters.
pub mod Outcome
pub mod RoundTrip
pub mod Plain
mod Tests
use Prim.Native.Char.{Char}
use Prim.Native.String
use Prim.Native.String.{len, slice}
use text.Mathlib.Text.{starts_with}
use frps_gateway.Base.{
  ℕ, String, ◌<>◌, ◌==◌, Bool, true, false, not, ◌&&◌, ◌||◌, Option, none, some, List, [], ◌∷◌, ltb,
  if◌then◌else◌,
}
use frps_gateway.Duration.Parse.{Floats, Parsed, parsed, invalid, is_positive}
use frps_gateway.Duration.Parse

-- What the parser uses of other packages: `%q` of fmt is `quote`, unicode.Cf is `is_format`.
pub record ChatText : Type 1 where
  pub Ip : Type 0
  pub parse_ip : String → Option Ip
  pub show_ip : Ip → String
  pub is_global_unicast : Ip → Bool
  pub is_private : Ip → Bool
  pub is_loopback : Ip → Bool
  pub is_link_local_unicast : Ip → Bool
  pub strip_mentions : String → String
  pub trim : String → String
  pub lower : String → String
  pub fields : String → List String
  pub equal_fold : String → String → Bool
  pub is_format : Char → Bool
  pub quote : String → String
  pub floats : Floats

-- Action
pub data Action : Type 0 where
  add_ip remove_ip list_mine help menu apply_link : Action

-- Command; its time to live is a duration of package duration, 0 for the default
pub record Command : Type 0 where
  pub action : Action
  pub ip : String
  pub ttl : ℕ

-- The errors, with the word that they quote.
pub data CommandError : Type 0 where
  unknown_operation apply_takes_nothing : CommandError
  add_missing add_too_many remove_missing remove_too_many : CommandError
  not_an_ip not_public bad_ttl : String → CommandError

abbrev pub usage : String
usage =
    "可用指令：\n  /start                    打开操作菜单\n  授权                      直接获取一次性授权链接\n  申请授权 <IP> [有效期]   为指定公网 IP 添加临时授权\n  我的授权                  查看自己的有效授权\n  撤销授权 <IP>             撤销指定授权；其他人的授权不受影响\n示例：申请授权 1.2.3.4 2h"

abbrev pub add_aliases : List String
add_aliases = "申请授权" ∷ []

abbrev pub remove_aliases : List String
remove_aliases = "撤销授权" ∷ []

abbrev pub list_aliases : List String
list_aliases = "我的授权" ∷ []

abbrev pub menu_aliases : List String
menu_aliases = "/start" ∷ "开始" ∷ "菜单" ∷ []

abbrev pub apply_aliases : List String
apply_aliases = "授权" ∷ "/auth" ∷ []

-- concat(addAliases, removeAliases)
abbrev pub alias_prefixes : List String
alias_prefixes = "申请授权" ∷ "撤销授权" ∷ []

abbrev pub plain_command : Action → Command
plain_command a = record { action = a; ip = ""; ttl = 0 }

abbrev pub ParseResult : Type 0
ParseResult = Command × Option CommandError

abbrev pub fail_with : CommandError → ParseResult
fail_with x = (plain_command help, some x)

abbrev pub succeed : Command → ParseResult
succeed c = (c, none)

module _ (lib : ChatText) where
  -- CommandError's text
  abbrev pub error_text : CommandError → String
  error_text unknown_operation = "无法识别该操作，请发送 /start 打开菜单"
  error_text apply_takes_nothing = "授权指令无需参数，直接发送「授权」即可；如需指定 IP 请使用「申请授权 <IP> [有效期]」"
  error_text add_missing = "请填写公网 IP，例如：申请授权 1.2.3.4 2h"
  error_text add_too_many = "参数过多，例如：申请授权 1.2.3.4 2h"
  error_text remove_missing = "请选择或填写需要撤销的 IP，例如：撤销授权 1.2.3.4"
  error_text remove_too_many = "参数过多，例如：撤销授权 1.2.3.4"
  error_text (not_an_ip word) = lib.quote word <> " 不是合法的 IP 地址"
  error_text (not_public word) = lib.quote word <> " 不是可授权的公网 IP 地址"
  error_text (bad_ttl word) = lib.quote word <> " 不是合法的有效期（支持 30m / 2h / 3d）"

  -- contains
  abbrev pub has_alias : List String → String → Bool
  has_alias [] s = false
  has_alias (a ∷ rest) s = lib.equal_fold a s || has_alias rest s

  -- The loop of `normalize`, which stops at the first alias that is glued to its argument.
  abbrev pub unglue : List String → String → String
  unglue [] text = text
  unglue (alias ∷ aliases) text =
      let rest = slice text (len alias) (len text) in
      if ltb (len alias) (len text)
        && starts_with (lib.lower text) alias
        && not (starts_with rest " ")
      then slice text 0 (len alias) <> (" " <> rest)
      else unglue aliases text

  -- normalize
  abbrev pub normalize : String → String
  normalize raw = unglue alias_prefixes (lib.trim (lib.strip_mentions raw))

  -- sanitizeIPToken
  abbrev pub sanitize_ip_token : String → String
  sanitize_ip_token String.[] = ""
  sanitize_ip_token (String.◌∷◌ c s) =
      let rest = sanitize_ip_token s in if lib.is_format c then rest else String.◌∷◌ c rest

  -- An address that a grant may name.
  abbrev pub is_public : lib.Ip → Bool
  is_public ip =
      lib.is_global_unicast ip
      && not (lib.is_private ip || lib.is_loopback ip || lib.is_link_local_unicast ip)

  abbrev pub with_ttl : lib.Ip → String → Parsed → ParseResult
  with_ttl ip word (invalid x) = fail_with (bad_ttl word)
  with_ttl ip word (parsed t) =
      if is_positive t
      then succeed (record { action = add_ip; ip = lib.show_ip ip; ttl = t })
      else fail_with (bad_ttl word)

  abbrev pub add_public : lib.Ip → List String → ParseResult
  add_public ip [] = succeed (record { action = add_ip; ip = lib.show_ip ip; ttl = 0 })
  add_public ip (word ∷ _) = with_ttl ip word (Parse.parse lib.floats lib.trim lib.lower word)

  abbrev pub add_address : Option lib.Ip → String → List String → ParseResult
  add_address none word ttls = fail_with (not_an_ip word)
  add_address (some ip) word ttls =
      if is_public ip then add_public ip ttls else fail_with (not_public word)

  -- parseAdd
  abbrev pub parse_add : List String → ParseResult
  parse_add [] = fail_with add_missing
  parse_add (word ∷ []) = add_address (lib.parse_ip (sanitize_ip_token word)) word []
  parse_add (word ∷ ttl ∷ []) = add_address (lib.parse_ip (sanitize_ip_token word)) word (ttl ∷ [])
  parse_add (word ∷ ttl ∷ more ∷ rest) = fail_with add_too_many

  abbrev pub remove_address : Option lib.Ip → String → ParseResult
  remove_address none word = fail_with (not_an_ip word)
  remove_address (some ip) word =
      succeed (record { action = remove_ip; ip = lib.show_ip ip; ttl = 0 })

  -- parseRemove
  abbrev pub parse_remove : List String → ParseResult
  parse_remove [] = fail_with remove_missing
  parse_remove (word ∷ []) = remove_address (lib.parse_ip (sanitize_ip_token word)) word
  parse_remove (word ∷ more ∷ rest) = fail_with remove_too_many

  abbrev pub parse_apply : List String → ParseResult
  parse_apply [] = succeed (plain_command apply_link)
  parse_apply (word ∷ rest) = fail_with apply_takes_nothing

  -- The switch of `Parse`.
  abbrev pub parse_fields : List String → ParseResult
  parse_fields [] = succeed (plain_command help)
  parse_fields (first ∷ args) =
      let head = lib.lower first in
      if has_alias menu_aliases head
      then succeed (plain_command menu)
      else if has_alias add_aliases head
      then parse_add args
      else if has_alias remove_aliases head
      then parse_remove args
      else if has_alias list_aliases head
      then succeed (plain_command list_mine)
      else if has_alias apply_aliases head
      then parse_apply args
      else fail_with unknown_operation

  -- Parse
  unfoldable pub parse_command : String → ParseResult
  parse_command raw = parse_fields (lib.fields (normalize raw))
