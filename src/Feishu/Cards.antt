-- ===== src/Feishu/Cards.antt =====
-- feishu/cards.go: the cards of the bot, as the parts that vary. `decimal` is `%d` of fmt, `day_time`
-- Format("01-02 15:04") of a local time.
use frps_gateway.Base.{
  ℕ, suc, String, ◌<>◌, Bool, true, false, ◌==◌, Option, none, some, List, [], ◌∷◌, ◌++◌, map,
  if◌then◌else◌,
}
use frps_gateway.Store.Schema.{Grant}

-- A button: its text, its type, and what it sends, after a confirmation if there is one; or a link.
pub data Button : Type 0 where
  button : String → String → List (String × String) → Option (String × String) → Button
  link_button : String → String → Button

-- card
pub record Card : Type 0 where
  pub title : String
  pub template : String
  pub markdown : String
  pub actions : List Button

abbrev pub plain_button : String → String → String → Button
plain_button text kind action = button text kind (("action", action) ∷ []) none

abbrev pub back_to_menu : Button
back_to_menu = plain_button "返回菜单" "default" "menu"

-- applyEntry
abbrev pub apply_entry : String → Button
apply_entry link =
    if link == "" then plain_button "申请授权" "primary" "apply" else link_button "打开授权页面" link

-- menuCard
abbrev pub menu_card : String → String → Card
menu_card link link_ttl =
    let rest =
      plain_button "我的授权" "default" "list" ∷ plain_button "撤销授权" "danger" "revoke_menu" ∷ [] in
    if link == ""
    then record {
      title = "临时网络访问授权";
      template = "blue";
      markdown = "当前授权范围：全部现有内网服务\n\n请选择需要执行的操作。";
      actions = apply_entry link ∷ rest;
    }
    else record {
      title = "临时网络访问授权";
      template = "blue";
      markdown =
          "当前授权范围：全部现有内网服务\n\n点击「打开授权页面」即可自动授权你当前的公网 IP；链接 "
          <> (link_ttl <> " 内有效且仅可使用一次，过期或用完后点击「重新授权」获取新链接。");
      actions = apply_entry link ∷ plain_button "重新授权" "default" "apply" ∷ rest;
    }

-- applyLinkCard
abbrev pub apply_link_card : String → String → String → Card
apply_link_card link ttl link_ttl = record {
  title = "申请授权";
  template = "wathet";
  markdown =
      "点击下方按钮打开授权页面，页面会自动识别你当前的公网 IP，确认后立即生效。\n\n授权有效期 **"
      <> (ttl <> ("**；链接 " <> (link_ttl <> " 内有效、仅可使用一次，请勿转发。")));
  actions = link_button "打开授权页面" link ∷ back_to_menu ∷ [];
}

-- applyInstructionsCard
abbrev pub apply_instructions_card : String → Card
apply_instructions_card ttl = record {
  title = "申请授权";
  template = "wathet";
  markdown =
      "请先[查询当前网络的公网 IPv4](https://ipv4.icanhazip.com/)，复制页面中唯一显示的 IPv4 地址；若无法访问，可使用[备用查询页](https://www.cip.cc/)，并确认复制的是 IPv4。\n\n然后发送：\n\n**申请授权 203.0.113.10 "
      <> (ttl <> ("**\n\n有效期可填写 `30m`、`2h`、`1d`、`30d`，不填写时默认 " <> (ttl <> "。")));
  actions = back_to_menu ∷ [];
}

module _ (decimal day_time : ℕ → String) where
  abbrev pub grant_line : ℕ → Grant → String
  grant_line n g = decimal n <> (". **" <> (g.ip <> ("**\u{3000}有效至 " <> day_time g.expire_at)))

  -- The loop that writes the lines, from the number of the first.
  abbrev pub grant_lines : ℕ → List Grant → String
  grant_lines n [] = ""
  grant_lines n (g ∷ []) = grant_line n g
  grant_lines n (g ∷ h ∷ gs) = grant_line n g <> ("\n" <> grant_lines (suc n) (h ∷ gs))

  abbrev pub revoke_button : Grant → Button
  revoke_button g =
      button ("撤销 " <> g.ip) "danger" (("action", "revoke") ∷ ("ip", g.ip) ∷ [])
        (some ("确认撤销", "撤销后，该网络可能立即无法访问公司服务。"))

  abbrev pub grant_buttons : List Grant → Bool → List Button
  grant_buttons gs true = map revoke_button gs
  grant_buttons gs false = plain_button "撤销授权" "danger" "revoke_menu" ∷ []

  abbrev pub titled : Bool → String → List Button → Card
  titled true markdown actions = record {
    title = "撤销授权";
    template = "orange";
    markdown = markdown;
    actions = actions;
  }
  titled false markdown actions = record {
    title = "我的授权";
    template = "green";
    markdown = markdown;
    actions = actions;
  }

  -- grantsCard
  abbrev pub grants_card : List Grant → Bool → Card
  grants_card [] revocable = titled revocable "你当前没有有效授权。" (back_to_menu ∷ [])
  grants_card (g ∷ gs) revocable =
      titled revocable (grant_lines 1 (g ∷ gs))
        (grant_buttons (g ∷ gs) revocable ++ back_to_menu ∷ [])
