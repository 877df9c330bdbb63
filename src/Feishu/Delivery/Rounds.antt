-- ===== src/Feishu/Delivery/Rounds.antt =====
-- No event is lost by a round of `runInbox` in feishu/bot.go.
use frps_gateway.Base.{
  ℕ, String, ◌<>◌, ◌==◌, eq_iff, ◌≡◌, refl, ◌∙◌, ap, Bool, true, false, ◌⊎◌, inl, inr, Bool-cases,
  Option, none, some, has,
}
use frps_gateway.Store.Schema.{InboxEvent}
use frps_gateway.Store.Sql.{Env, Result, ok, err}
use frps_gateway.Store.Inbox.{claim_inbox, complete_inbox}
use frps_gateway.Command.{
  Action, menu, apply_link, add_ip, remove_ip, list_mine, help, ParseResult, parse_command,
}
use frps_gateway.Executor.Commands.{ChatRequest}
use frps_gateway.Feishu.Rate.{allow}
use frps_gateway.Feishu.Bot.{
  ChatExecutor, BotLibrary, BotConfig, MessageEvent, Bench, deliver_content, link_request,
  menu_card_for, apply_card_for, chat_request, answer_command, answer_action, answer_parsed,
  answer_content, answer_limited, is_ignored, handle,
}
use frps_gateway.Feishu.Delivery.{handle_payload, is_ok, finish_event, on_claimed, inbox_round}
use frps_gateway.Store.Inbox.Unfinished.{
  is_open, open_event, claim_inbox-open, complete_inbox-open, retry_inbox-open, enqueue_reply-inbox,
}

-- An executor that leaves the inbox alone.
pub record KeepsInbox (exec : ChatExecutor) : Type 0 where
  pub execute :
      (r : ChatRequest) (e : Env) (s : exec.State)
      → (exec.execute r e s).1.db.bot_inbox ≡ e.db.bot_inbox
  pub authorize_link :
      (r : ChatRequest) (e : Env) (s : exec.State)
      → (exec.authorize_link r e s).1.db.bot_inbox ≡ e.db.bot_inbox

module _ (exec : ChatExecutor) (laws : KeepsInbox exec) (lib : BotLibrary)
    (config : BotConfig) where
  deliver_content-inbox :
      (id chat_id : String) (content : Option String) (now : ℕ) (b : Bench exec lib config)
      → (deliver_content exec lib config id chat_id content now b).1.env.db.bot_inbox
        ≡ b.env.db.bot_inbox
  deliver_content-inbox id chat_id none now b = refl
  deliver_content-inbox id chat_id (some content) now b = enqueue_reply-inbox id chat_id _ now b.env

  answer_command-inbox :
      (m : MessageEvent) (text : String) (now : ℕ) (b : Bench exec lib config)
      → (answer_command exec lib config m text now b).1.env.db.bot_inbox ≡ b.env.db.bot_inbox
  answer_command-inbox m text now b =
      let (reply, e, s) = exec.execute (chat_request exec lib config m text) b.env b.state in
      enqueue_reply-inbox m.message_id m.chat_id reply now e
      ∙ laws.execute (chat_request exec lib config m text) b.env b.state

  answer_action-inbox :
      (m : MessageEvent) (text : String) (action : Action) (now : ℕ) (b : Bench exec lib config)
      → (answer_action exec lib config m text action now b).1.env.db.bot_inbox ≡ b.env.db.bot_inbox
  answer_action-inbox m text menu now b =
      let x = m.message_id <> ":menu" in
      let (card, b') = menu_card_for exec lib config m.open_id x b in
      deliver_content-inbox x m.chat_id (lib.marshal_card card) now b'
      ∙ laws.authorize_link (link_request exec lib config m.open_id x) b.env b.state
  answer_action-inbox m text apply_link now b =
      let x = m.message_id <> ":apply" in
      let (card, b') = apply_card_for exec lib config m.open_id x b in
      deliver_content-inbox x m.chat_id (lib.marshal_card card) now b'
      ∙ laws.authorize_link (link_request exec lib config m.open_id x) b.env b.state
  answer_action-inbox m text add_ip now b = answer_command-inbox m text now b
  answer_action-inbox m text remove_ip now b = answer_command-inbox m text now b
  answer_action-inbox m text list_mine now b = answer_command-inbox m text now b
  answer_action-inbox m text help now b = answer_command-inbox m text now b

  answer_parsed-inbox :
      (m : MessageEvent) (text : String) (p : ParseResult) (now : ℕ) (b : Bench exec lib config)
      → (answer_parsed exec lib config m text p now b).1.env.db.bot_inbox ≡ b.env.db.bot_inbox
  answer_parsed-inbox m text (c, some x) now b = answer_command-inbox m text now b
  answer_parsed-inbox m text (c, none) now b = answer_action-inbox m text c.action now b

  answer_content-inbox :
      (m : MessageEvent) (content : Option String) (now : ℕ) (b : Bench exec lib config)
      → (answer_content exec lib config m content now b).1.env.db.bot_inbox ≡ b.env.db.bot_inbox
  answer_content-inbox m none now b = refl
  answer_content-inbox m (some text) now b =
      answer_parsed-inbox m text (parse_command lib.chat_text text) now b

  answer_limited-inbox :
      (m : MessageEvent) (passed : Bool) (now : ℕ) (b : Bench exec lib config)
      → (answer_limited exec lib config m passed now b).1.env.db.bot_inbox ≡ b.env.db.bot_inbox
  answer_limited-inbox m true now b = answer_content-inbox m (lib.extract_text m.content) now b
  answer_limited-inbox m false now b = enqueue_reply-inbox _ m.chat_id _ now b.env

  handle-inbox :
      (event : Option MessageEvent) (clock : ℕ → ℕ) (b : Bench exec lib config)
      → (handle exec lib config event clock b).1.env.db.bot_inbox ≡ b.env.db.bot_inbox
  unfolding handle
  handle-inbox none clock b = refl
  handle-inbox (some m) clock b = elim (Bool-cases (is_ignored exec lib config m)) [
    | inl ignored ↦ rw ignored refl
    | inr heard ↦ rw heard (
        answer_limited-inbox m (allow config.requests_per_minute m.open_id (clock 0) b.limiter).0
          (clock 1) _)
  ]

  module _ (unmarshal : String → Option (Option MessageEvent)) where
    handle_payload-inbox :
        (event : Option (Option MessageEvent)) (clock : ℕ → ℕ) (b : Bench exec lib config)
        → (handle_payload exec lib config unmarshal event clock b).1.env.db.bot_inbox
          ≡ b.env.db.bot_inbox
    handle_payload-inbox none clock b = refl
    handle_payload-inbox (some event) clock b = handle-inbox event clock b

    -- Handled under its id, by a claim of the round.
    abbrev pub HandledIn : String → (ℕ → ℕ) → Bench exec lib config → Type 0
    HandledIn id clock b =
        (item : InboxEvent) × (e : Env) × (claim_inbox (clock 2) b.env ≡ (ok (some item), e))
        × (item.id ≡ id)
        × ((handle_payload exec lib config unmarshal (unmarshal item.payload) clock
              (record b { env = e })).0
            ≡ true)

    finish_event-open :
        (id : String) (item : InboxEvent) (handled : Bool) (clock : ℕ → ℕ)
        (b : Bench exec lib config)
        → open_event id b.env.db ≡ true
        → (open_event id (finish_event exec lib config unmarshal item handled clock b).env.db
            ≡ true)
          ⊎ ((item.id ≡ id) × (handled ≡ true))
    finish_event-open id item false clock b h =
        inl (retry_inbox-open id item.id item.attempts (clock 4) b.env h)
    finish_event-open id item true clock b h = elim (Bool-cases (item.id == id)) [
      | inl same ↦ inr ((eq_iff item.id id).0 same, refl)
      | inr other ↦
          let still = complete_inbox-open id item.id (clock 3) other b.env ∙ h in
          elim (Bool-cases
            (is_ok exec lib config unmarshal (complete_inbox item.id (clock 3) b.env).0)) [
              | inl done ↦ inl (rw done still)
              | inr failed ↦
                  inl (rw failed (retry_inbox-open id item.id item.attempts (clock 4) _ still))
            ]
    ]

    on_claimed-open :
        (id : String) (claimed : Result (Option InboxEvent)) (clock : ℕ → ℕ) (e : Env)
        (b : Bench exec lib config)
        → claim_inbox (clock 2) b.env ≡ (claimed, e)
        → open_event id e.db ≡ true
        → (open_event id
              (on_claimed exec lib config unmarshal claimed clock (record b { env = e })).env.db
            ≡ true)
          ⊎ HandledIn id clock b
    on_claimed-open id (err x) clock e b q h = inl h
    on_claimed-open id (ok none) clock e b q h = inl h
    on_claimed-open id (ok (some item)) clock e b q h =
        let (handled, b') =
          handle_payload exec lib config unmarshal (unmarshal item.payload) clock
            (record b { env = e }) in
        let kept : open_event id b'.env.db ≡ true =
          ap (has (is_open id))
            (handle_payload-inbox (unmarshal item.payload) clock (record b { env = e }))
          ∙ h in
        elim (finish_event-open id item handled clock b' kept) [
          | inl still ↦ inl still
          | inr (same, done) ↦ inr (item, e, q, same, done)
        ]

    -- An event of the inbox that is not completed is not so after a round either, whatever statements
    -- fail, unless the round claimed an event of its id and handled it without an error. The executor is
    -- one that leaves the inbox alone.
    pub keeping_round-open :
        (id : String) (clock : ℕ → ℕ) (b : Bench exec lib config)
        → open_event id b.env.db ≡ true
        → (open_event id (inbox_round exec lib config unmarshal clock b).env.db ≡ true)
          ⊎ HandledIn id clock b
    unfolding inbox_round
    keeping_round-open id clock b h =
        let (claimed, e) = claim_inbox (clock 2) b.env in
        on_claimed-open id claimed clock e b refl (claim_inbox-open id (clock 2) b.env ∙ h)
