-- ===== src/Executor/Commands/Own.antt =====
-- A chat command of executor/executor.go works on the grants of its sender only.
use frps_gateway.Base.{ℕ, String, ◌≡◌, refl, ◌∙◌, Option, none, some}
use frps_gateway.Store.Sql.{Result, ok, err}
use frps_gateway.Store.Messages.{cached_reply}
use frps_gateway.Store.Messages.Replies.{cached_reply-Keeps, save_reply-Keeps}
use frps_gateway.Store.Grants.Frames.{
  grants_of_others, add_grant_limited-others, revoke_user_ip-others,
}
use frps_gateway.Frps.{Transport}
use frps_gateway.Command.{ChatText, parse_command}
use frps_gateway.Executor.Commands.{
  ChatRequest, Limits, Wording, Backend, Ran, save_outcome, run_command, reply_text, on_cached,
  execute, dispatch,
}
use frps_gateway.Executor.Commands.Kept.{dispatch-SameView}

module _ (t : Transport) (limits : Limits) (lib : ChatText) (wording : Wording) where
  save_outcome-others :
      (user : String) (r : ChatRequest) (clock : ℕ → ℕ) (ran : Ran t)
      → grants_of_others user (save_outcome t limits lib wording r clock ran).1.env.db
        ≡ grants_of_others user ran.1.env.db
  save_outcome-others user r clock (outcome, b) =
      save_reply-Keeps (grants_of_others user) r.message_id
        (reply_text t limits lib wording outcome) (clock 7) (λ d ms. refl) b.env

  run_command-others :
      (r : ChatRequest) (clock : ℕ → ℕ) (b : Backend t)
      → grants_of_others r.operator_open_id (run_command t limits lib wording r clock b).1.env.db
        ≡ grants_of_others r.operator_open_id b.env.db
  run_command-others r clock b =
      let user = r.operator_open_id in
      let p = parse_command lib r.text in
      save_outcome-others user r clock (dispatch t limits lib wording r clock p b)
      ∙ dispatch-SameView (grants_of_others user) t limits lib wording r clock p b
          (λ g same limit now. rw (← same) (add_grant_limited-others g limit now))
          (λ ip now now'. revoke_user_ip-others user ip now now')

  on_cached-others :
      (r : ChatRequest) (clock : ℕ → ℕ) (cached : Result (Option String)) (b : Backend t)
      → grants_of_others r.operator_open_id
          (on_cached t limits lib wording r clock cached b).1.env.db
        ≡ grants_of_others r.operator_open_id b.env.db
  on_cached-others r clock (ok (some reply)) b = refl
  on_cached-others r clock (ok none) b = run_command-others r clock b
  on_cached-others r clock (err x) b = run_command-others r clock b

  -- Whatever a chat message asks for, and whatever fails on the way, the grants of every user but its
  -- sender are as they were.
  pub execute-others :
      (r : ChatRequest) (clock : ℕ → ℕ) (b : Backend t)
      → grants_of_others r.operator_open_id (execute t limits lib wording r clock b).1.env.db
        ≡ grants_of_others r.operator_open_id b.env.db
  unfolding execute
  execute-others r clock b =
      let (cached, e) = cached_reply r.message_id b.env in
      on_cached-others r clock cached (record b { env = e })
      ∙ cached_reply-Keeps (grants_of_others r.operator_open_id) r.message_id b.env
