-- ===== src/Feishu/Bot/Answered.antt =====
-- A message that feishu/bot.go handles is answered.
use frps_gateway.Base.{
  ℕ, String, ◌<>◌, ◌==◌, ◌≡◌, refl, Bool, true, false, ◌||◌, ◌⊎◌, inl, inr, Bool-cases, Option,
  none, some, arith,
}
use frps_gateway.Store.Sql.{Result, ok, err}
use frps_gateway.Store.Outbox.{enqueue_reply}
use frps_gateway.Command.{
  Action, menu, apply_link, add_ip, remove_ip, list_mine, help, ParseResult, parse_command,
}
use frps_gateway.Feishu.Rate.{Limiter, allow}
use frps_gateway.Feishu.Cards.{Card, menu_card, apply_link_card, apply_instructions_card}
use frps_gateway.Feishu.Bot.{
  ChatExecutor, BotLibrary, BotConfig, MessageEvent, Bench, error_of, deliver_reply,
  deliver_content, menu_for, menu_card_for, apply_for, apply_card_for, chat_request, answer_command,
  answer_action, answer_parsed, CardEvent, is_ignored, answer_limited, handle, on_card_action,
}
use frps_gateway.Feishu.Bot.Queued.{Queued, error_free, enqueue_reply-Queued}

module _ (exec : ChatExecutor) (lib : BotLibrary) (config : BotConfig) where
  abbrev Place : Type 0
  Place = Bench exec lib config

  deliver_reply-Queued :
      (x chat_id reply : String) (now : ℕ) (b : Place)
      → (deliver_reply exec lib config x chat_id reply now b).0 ≡ none
      → Queued x chat_id reply b.env.db
          (deliver_reply exec lib config x chat_id reply now b).1.env.db
  deliver_reply-Queued x chat_id reply now b h =
      enqueue_reply-Queued x chat_id reply now b.env
        (stored (enqueue_reply x chat_id reply now b.env).0 h)
    where
      stored : (r : Result (Unit {0})) → error_of exec lib config r ≡ none → error_free r ≡ true
      stored (ok u) k = refl
      stored (err y) k = cc k

  -- The executor got the message, and its reply is in the outbox under the id of the message.
  abbrev pub ByExecutor : MessageEvent → String → Place → Place → Type 0
  ByExecutor m text b b' =
      let (reply, e, s) =
        exec.execute
          (record {
            text = text;
            operator_open_id = m.open_id;
            operator_name = "";
            chat_id = m.chat_id;
            message_id = m.message_id;
          })
          b.env b.state in
      Queued m.message_id m.chat_id reply e.db b'.env.db × (b'.state ≡ s)

  -- The card of the menu: with the link, if one was issued.
  abbrev pub IsMenu : Option String → Card → Type 0
  IsMenu none card = card ≡ menu_card "" ""
  IsMenu (some link) card =
      (((link == "") ≡ true) × (card ≡ menu_card "" ""))
      ⊎ (((link == "") ≡ false) × (card ≡ menu_card link config.link_ttl))

  -- The card of an application: with the link, if one was issued, and else with instructions.
  abbrev pub IsApply : Option String → Card → Type 0
  IsApply none card = card ≡ apply_instructions_card config.default_ttl
  IsApply (some link) card =
      (((link == "") ≡ true) × (card ≡ apply_instructions_card config.default_ttl))
      ⊎ (((link == "") ≡ false) × (card ≡ apply_link_card link config.default_ttl config.link_ttl))

  -- A link was asked of the executor under an id, and a card is in the outbox under that id.
  abbrev pub ByCard :
      (Option String → Card → Type 0) → String → MessageEvent → Place → Place → Type 0
  ByCard IsCard x m b b' =
      let (link, e, s) =
        exec.authorize_link
          (record {
            text = "";
            operator_open_id = m.open_id;
            operator_name = "";
            chat_id = "";
            message_id = x;
          })
          b.env b.state in
      (card : Card) × (content : String) × IsCard link card
      × (lib.marshal_card card ≡ some content)
      × Queued x m.chat_id ("__FRPS_GATEWAY_INTERACTIVE_V1__:" <> content) e.db b'.env.db
      × (b'.state ≡ s)

  -- The answer to a command: a card to the two that ask for one, and else the executor's.
  abbrev pub ByAction : Action → MessageEvent → String → Place → Place → Type 0
  ByAction menu m text b b' = ByCard IsMenu (m.message_id <> ":menu") m b b'
  ByAction apply_link m text b b' = ByCard IsApply (m.message_id <> ":apply") m b b'
  ByAction _ m text b b' = ByExecutor m text b b'

  abbrev pub Replied : ParseResult → MessageEvent → String → Place → Place → Type 0
  Replied (c, some x) m text b b' = ByExecutor m text b b'
  Replied (c, none) m text b b' = ByAction c.action m text b b'

  menu_for-IsMenu : (link : Option String) → IsMenu link (menu_for exec lib config link)
  menu_for-IsMenu none = refl
  menu_for-IsMenu (some link) = elim (Bool-cases (link == "")) [
    | inl missing ↦ inl (missing, rw missing refl)
    | inr given ↦ inr (given, rw given refl)
  ]

  apply_for-IsApply : (link : Option String) → IsApply link (apply_for exec lib config link)
  apply_for-IsApply none = refl
  apply_for-IsApply (some link) = elim (Bool-cases (link == "")) [
    | inl missing ↦ inl (missing, rw missing refl)
    | inr given ↦ inr (given, rw given refl)
  ]

  deliver_content-Queued :
      (x chat_id : String) (now : ℕ) (b : Place) (content : Option String)
      → (deliver_content exec lib config x chat_id content now b).0 ≡ none
      → (text : String) × (content ≡ some text)
        × Queued x chat_id
            ("__FRPS_GATEWAY_INTERACTIVE_V1__:" <> text)
            b.env.db
            (deliver_content exec lib config x chat_id content now b).1.env.db
        × ((deliver_content exec lib config x chat_id content now b).1.state ≡ b.state)
  deliver_content-Queued x chat_id now b none h = cc h
  deliver_content-Queued x chat_id now b (some text) h =
      (text, refl, deliver_reply-Queued x chat_id _ now b h, refl)

  answer_command-ByExecutor :
      (m : MessageEvent) (text : String) (now : ℕ) (b : Place)
      → (answer_command exec lib config m text now b).0 ≡ none
      → ByExecutor m text b (answer_command exec lib config m text now b).1
  answer_command-ByExecutor m text now b h =
      let (reply, e, s) = exec.execute (chat_request exec lib config m text) b.env b.state in
      (
        deliver_reply-Queued m.message_id m.chat_id reply now (record b { env = e; state = s }) h,
        refl,
      )

  answer_action-ByAction :
      (m : MessageEvent) (text : String) (action : Action) (now : ℕ) (b : Place)
      → (answer_action exec lib config m text action now b).0 ≡ none
      → ByAction action m text b (answer_action exec lib config m text action now b).1
  answer_action-ByAction m text menu now b h =
      let x = m.message_id <> ":menu" in
      let (card, b') = menu_card_for exec lib config m.open_id x b in
      let (content, marshalled, queued, same) =
        deliver_content-Queued x m.chat_id now b' (lib.marshal_card card) h in
      (card, content, menu_for-IsMenu _, marshalled, queued, same)
  answer_action-ByAction m text apply_link now b h =
      let x = m.message_id <> ":apply" in
      let (card, b') = apply_card_for exec lib config m.open_id x b in
      let (content, marshalled, queued, same) =
        deliver_content-Queued x m.chat_id now b' (lib.marshal_card card) h in
      (card, content, apply_for-IsApply _, marshalled, queued, same)
  answer_action-ByAction m text add_ip now b h = answer_command-ByExecutor m text now b h
  answer_action-ByAction m text remove_ip now b h = answer_command-ByExecutor m text now b h
  answer_action-ByAction m text list_mine now b h = answer_command-ByExecutor m text now b h
  answer_action-ByAction m text help now b h = answer_command-ByExecutor m text now b h

  answer_parsed-Replied :
      (m : MessageEvent) (text : String) (p : ParseResult) (now : ℕ) (b : Place)
      → (answer_parsed exec lib config m text p now b).0 ≡ none
      → Replied p m text b (answer_parsed exec lib config m text p now b).1
  answer_parsed-Replied m text (c, some x) now b h = answer_command-ByExecutor m text now b h
  answer_parsed-Replied m text (c, none) now b h = answer_action-ByAction m text c.action now b h

  -- The limiter has no part in an answer of the executor or with a card.
  ByAction-limiter :
      (m : MessageEvent) (text : String) (action : Action) (b b' : Place) (limiter : Limiter)
      → ByAction action m text (record b { limiter = limiter }) b'
      → ByAction action m text b b'
  ByAction-limiter m text menu b b' limiter h = h
  ByAction-limiter m text apply_link b b' limiter h = h
  ByAction-limiter m text add_ip b b' limiter h = h
  ByAction-limiter m text remove_ip b b' limiter h = h
  ByAction-limiter m text list_mine b b' limiter h = h
  ByAction-limiter m text help b b' limiter h = h

  Replied-limiter :
      (m : MessageEvent) (text : String) (p : ParseResult) (b b' : Place) (limiter : Limiter)
      → Replied p m text (record b { limiter = limiter }) b'
      → Replied p m text b b'
  Replied-limiter m text (c, some x) b b' limiter h = h
  Replied-limiter m text (c, none) b b' limiter h = ByAction-limiter m text c.action b b' limiter h

  -- The answer by what the limit on the sender's requests decided.
  abbrev pub Answered : Bool → MessageEvent → String → Place → Place → Type 0
  Answered true m text b b' = Replied (parse_command lib.chat_text text) m text b b'
  Answered false m text b b' =
      Queued (m.message_id <> ":rate-limit") m.chat_id "请求过于频繁，请稍后再试" b.env.db b'.env.db
      × (b'.state ≡ b.state)

  answer_limited-Answered :
      (m : MessageEvent) (text : String) (passed : Bool) (now : ℕ) (b : Place) (limiter : Limiter)
      → lib.extract_text m.content ≡ some text
      → (answer_limited exec lib config m passed now (record b { limiter = limiter })).0 ≡ none
      → Answered passed m text b
          (answer_limited exec lib config m passed now (record b { limiter = limiter })).1
  answer_limited-Answered m text true now b limiter q h =
      let b' : Place = record b { limiter = limiter } in
      rw q (
        Replied-limiter m text (parse_command lib.chat_text text) b _ limiter
          (answer_parsed-Replied m text (parse_command lib.chat_text text) now b' (rw q at h)))
  answer_limited-Answered m text false now b limiter q h =
      let b' : Place = record b { limiter = limiter } in
      (deliver_reply-Queued (m.message_id <> ":rate-limit") m.chat_id _ now b' h, refl)

  -- A message that the bot does not ignore and whose content has a text, if it is handled without an
  -- error, is answered in the outbox, for its chat: if the limiter refuses the sender, under its
  -- rate-limit id with the text that says so, and the executor is not called; else, if it asks for the
  -- menu or for a link, with the card, which has the link if one was issued, under its id for that card;
  -- and else with the reply of the executor to the message, under the id of the message. Only a reply of
  -- that id that had been sent already keeps its text.
  pub handle-Answered :
      (m : MessageEvent) (text : String) (clock : ℕ → ℕ) (b : Bench exec lib config)
      → is_ignored exec lib config m ≡ false
      → lib.extract_text m.content ≡ some text
      → (handle exec lib config (some m) clock b).0 ≡ none
      → let (passed, limiter) = allow config.requests_per_minute m.open_id (clock 0) b.limiter in
        Answered passed m text b (handle exec lib config (some m) clock b).1
  unfolding handle
  handle-Answered m text clock b heard q h =
      let (passed, limiter) = allow config.requests_per_minute m.open_id (clock 0) b.limiter in
      rw heard (answer_limited-Answered m text passed (clock 1) b limiter q (rw heard at h))

  -- Unless all chats are allowed, a message and a card action from a chat that is not the configured one
  -- change nothing: no table, no limit, and the executor is not called.
  pub other_chats_change_nothing :
      (m : MessageEvent) (c : CardEvent) (clock : ℕ → ℕ) (b : Bench exec lib config)
      → config.allow_all_users ≡ false
      → (m.chat_id == config.admin_chat_id) ≡ false
      → (c.chat_id == config.admin_chat_id) ≡ false
      → (handle exec lib config (some m) clock b ≡ (none, b))
        × ((on_card_action exec lib config (some c) clock b).1 ≡ b)
  unfolding handle on_card_action
  other_chats_change_nothing m c clock b closed message card =
      let ignored : is_ignored exec lib config m ≡ true = ground (arith, closed, message) in
      (
        rw ignored refl,
        elim (Bool-cases (c.app == config.app_id)) [
          | inr other ↦ rw other refl
          | inl app ↦ elim (Bool-cases (c.open_id == "" || c.chat_id == "")) [
            | inl unknown ↦ rw (app, unknown) refl
            | inr known ↦ rw (app, known, closed, card) refl
          ]
        ],
      )
