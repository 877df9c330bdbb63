-- ===== src/Feishu/Delivery/Wired.antt =====
-- The executor of executor/executor.go as the executor of the bot, as main.go wires them, and the rounds
-- of `runInbox` in feishu/bot.go with it. `clock r` are the times in a call for a request.
use frps_gateway.Base.{ℕ, String, ◌≡◌, refl, ◌∙◌, ap, true, ◌⊎◌, Option, none, some, arith}
use frps_gateway.Store.Schema.{Db, Grant}
use frps_gateway.Store.Sql.{Env, Result, ok, err}
use frps_gateway.Store.Sql.Frames.{Keeps, Keeps-statement}
use frps_gateway.Store.Messages.{cached_reply}
use frps_gateway.Store.Messages.Replies.{cached_reply-Keeps, save_reply-Keeps}
use frps_gateway.Store.Grants.{insert_grant, insert_managed, add_grant_limited, revoke_user_ip}
use frps_gateway.Store.Grants.Frames.{add_grant_limited-Keeps}
use frps_gateway.Store.Inbox.Unfinished.{inbox_of, open_event}
use frps_gateway.Frps.{Transport}
use frps_gateway.Command.{ChatText, parse_command}
use frps_gateway.Executor.Commands.{
  ChatRequest, Limits, Wording, Backend, Ran, save_outcome, run_command, reply_text, on_cached,
  execute, dispatch,
}
use frps_gateway.Executor.Commands.Kept.{dispatch-SameView}
use frps_gateway.Authorize.Link.{LinkResult, link, no_random, refused_by, LinkRequest, new_link}
use frps_gateway.Authorize.Link.Issued.{Issued, new_link-Issued}
use frps_gateway.Feishu.Bot.{ChatExecutor, BotLibrary, BotConfig, MessageEvent, Bench}
use frps_gateway.Feishu.Delivery.{inbox_round}
use frps_gateway.Feishu.Delivery.Rounds.{KeepsInbox, HandledIn, keeping_round-open}

add_grant_limited-inbox :
    (g : Grant) (limit now : ℕ) → Keeps inbox_of (add_grant_limited g limit now)
unfolding insert_grant insert_managed
add_grant_limited-inbox g limit now =
    add_grant_limited-Keeps inbox_of g limit now (λ d. refl) (λ d. ground arith)

revoke_user_ip-inbox :
    (open_id ip : String) (now now' : ℕ) → Keeps inbox_of (revoke_user_ip open_id ip now now')
unfolding revoke_user_ip
revoke_user_ip-inbox open_id ip now now' = Keeps-statement inbox_of _ (λ d. refl)

module _ (t : Transport) (limits : Limits) (lib : ChatText) (wording : Wording) where
  save_outcome-inbox :
      (r : ChatRequest) (clock : ℕ → ℕ) (ran : Ran t)
      → inbox_of (save_outcome t limits lib wording r clock ran).1.env.db ≡ inbox_of ran.1.env.db
  save_outcome-inbox r clock (outcome, b) =
      save_reply-Keeps inbox_of r.message_id (reply_text t limits lib wording outcome) (clock 7)
        (λ d ms. refl) b.env

  run_command-inbox :
      (r : ChatRequest) (clock : ℕ → ℕ) (b : Backend t)
      → inbox_of (run_command t limits lib wording r clock b).1.env.db ≡ inbox_of b.env.db
  run_command-inbox r clock b =
      let p = parse_command lib r.text in
      save_outcome-inbox r clock (dispatch t limits lib wording r clock p b)
      ∙ dispatch-SameView inbox_of t limits lib wording r clock p b
          (λ g same limit now. add_grant_limited-inbox g limit now)
          (λ ip now now'. revoke_user_ip-inbox r.operator_open_id ip now now')

  on_cached-inbox :
      (r : ChatRequest) (clock : ℕ → ℕ) (cached : Result (Option String)) (b : Backend t)
      → inbox_of (on_cached t limits lib wording r clock cached b).1.env.db ≡ inbox_of b.env.db
  on_cached-inbox r clock (ok (some reply)) b = refl
  on_cached-inbox r clock (ok none) b = run_command-inbox r clock b
  on_cached-inbox r clock (err x) b = run_command-inbox r clock b

  execute-inbox :
      (r : ChatRequest) (clock : ℕ → ℕ) (b : Backend t)
      → inbox_of (execute t limits lib wording r clock b).1.env.db ≡ inbox_of b.env.db
  unfolding execute
  execute-inbox r clock b =
      let (cached, e) = cached_reply r.message_id b.env in
      on_cached-inbox r clock cached (record b { env = e })
      ∙ cached_reply-Keeps inbox_of r.message_id b.env

-- What `NewLink` takes from its surroundings.
pub record Links : Type 0 where
  pub sha256 : String → String
  pub encode : String → String
  pub decimal : ℕ → String
  pub public_url : String
  pub draw : ChatRequest → ℕ → Option String
  pub link_ttl : ℕ

abbrev pub link_of : LinkResult → Option String
link_of (link url) = some url
link_of no_random = none
link_of (refused_by x) = none

module _ (t : Transport) (limits : Limits) (lib : ChatText) (wording : Wording) (links : Links)
    (clock : ChatRequest → ℕ → ℕ) where
  -- AuthorizeLink, with the server of the links
  abbrev pub authorize_link : ChatRequest → Env → Option String × Env
  authorize_link r e =
      let (result, e') =
        new_link links.sha256 links.encode links.decimal links.public_url (links.draw r) (clock r)
          (record {
            open_id = r.operator_open_id;
            name = r.operator_name;
            message_id = r.message_id;
            ttl = limits.default_ttl;
            valid_for = links.link_ttl;
          })
          e in
      (link_of result, e')

  -- The executor that main.go gives to the bot.
  abbrev pub executor : ChatExecutor
  executor = record {
    State = t.State;
    execute = λ r e s.
        let (reply, b) = execute t limits lib wording r (clock r) (record { env = e; frps = s }) in
        (reply, b.env, b.frps);
    authorize_link = λ r e s. let (url, e') = authorize_link r e in (url, e', s);
  }

  Issued-inbox :
      (sha256 encode : String → String) (decimal : ℕ → String) (public_url : String)
      (draw : ℕ → Option String) (time : ℕ → ℕ) (r : LinkRequest) (d d' : Db) (result : LinkResult)
      → Issued sha256 encode decimal public_url draw time r d result d'
      → inbox_of d' ≡ inbox_of d
  Issued-inbox sha256 encode decimal public_url draw time r d d' (link url)
        (raw, shown, (row, _, _, _, _, _, same)) =
      ap inbox_of same
  Issued-inbox sha256 encode decimal public_url draw time r d d' no_random same = ap inbox_of same
  Issued-inbox sha256 encode decimal public_url draw time r d d' (refused_by x) same =
      ap inbox_of same

  -- It leaves the inbox alone.
  pub executor-KeepsInbox : KeepsInbox executor
  executor-KeepsInbox = record {
    execute =
        λ r e s. execute-inbox t limits lib wording r (clock r) (record { env = e; frps = s });
    authorize_link = λ r e s.
        let q : LinkRequest = record {
          open_id = r.operator_open_id;
          name = r.operator_name;
          message_id = r.message_id;
          ttl = limits.default_ttl;
          valid_for = links.link_ttl;
        } in
        Issued-inbox links.sha256 links.encode links.decimal links.public_url (links.draw r)
          (clock r) q e.db _ _
          (new_link-Issued links.sha256 links.encode links.decimal links.public_url (links.draw r)
            (clock r) q e);
  }

  -- An event of the inbox that is not completed is not so after a round of the bot, with the gateway's own
  -- executor and its links, either, whatever statements fail and whatever frps answers, unless the round
  -- claimed an event of its id and handled it without an error.
  pub inbox_round-open :
      (bot : BotLibrary) (config : BotConfig) (unmarshal : String → Option (Option MessageEvent))
      (id : String) (times : ℕ → ℕ) (b : Bench executor bot config)
      → open_event id b.env.db ≡ true
      → (open_event id (inbox_round executor bot config unmarshal times b).env.db ≡ true)
        ⊎ HandledIn executor executor-KeepsInbox bot config unmarshal id times b
  inbox_round-open bot config unmarshal id times b h =
      keeping_round-open executor executor-KeepsInbox bot config unmarshal id times b h
