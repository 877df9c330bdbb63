-- ===== src/Executor/Commands/Again.antt =====
-- A message that executor/executor.go is given again is answered as it was.
use frps_gateway.Base.{
  ℕ, String, ◌==◌, ◌≡◌, refl, ◌∙◌, ap, false, inl, inr, Option, none, some, is_none, List, [], ◌∷◌,
}
use frps_gateway.Store.Sql.{Result, ok, err, next_fails, past}
use frps_gateway.Store.Messages.{cached_reply}
use frps_gateway.Store.Messages.Replies.{
  saved_reply, cached_reply_lem, cached_reply-Keeps, save_reply-saved, save_reply-first,
  cached_reply-absent,
}
use frps_gateway.Store.Grants.Frames.{
  saved_messages, add_grant_limited-messages, revoke_user_ip-messages,
}
use frps_gateway.Frps.{Transport}
use frps_gateway.Command.{ChatText, parse_command}
use frps_gateway.Executor.Commands.{
  ChatRequest, Limits, Wording, Backend, Ran, save_outcome, run_command, reply_text, on_cached,
  execute, dispatch,
}
use frps_gateway.Executor.Commands.Kept.{dispatch-SameView}

module _ (t : Transport) (limits : Limits) (lib : ChatText) (wording : Wording) where
  abbrev pub reply_to : String → Backend t → Option String
  reply_to id b = saved_reply id b.env.db.messages

  -- Messages that are executed one after another.
  abbrev pub execute_all : List (ChatRequest × (ℕ → ℕ)) → Backend t → Backend t
  execute_all [] b = b
  execute_all ((r, clock) ∷ rest) b = execute_all rest (execute t limits lib wording r clock b).1

  dispatched :
      (r : ChatRequest) (clock : ℕ → ℕ) (b : Backend t)
      → (dispatch t limits lib wording r clock (parse_command lib r.text) b).1.env.db.messages
        ≡ b.env.db.messages
  dispatched r clock b =
      dispatch-SameView saved_messages t limits lib wording r clock (parse_command lib r.text) b
        (λ g same limit now. add_grant_limited-messages g limit now)
        (λ ip now now'. revoke_user_ip-messages r.operator_open_id ip now now')

  saved_outcome :
      (id old : String) (r : ChatRequest) (clock : ℕ → ℕ) (ran : Ran t)
      → saved_reply id ran.1.env.db.messages ≡ some old
      → reply_to id (save_outcome t limits lib wording r clock ran).1 ≡ some old
  saved_outcome id old r clock (outcome, b) h =
      save_reply-saved r.message_id (reply_text t limits lib wording outcome) (clock 7) b.env id old
        h

  run_command-saved :
      (id old : String) (r : ChatRequest) (clock : ℕ → ℕ) (b : Backend t)
      → reply_to id b ≡ some old
      → reply_to id (run_command t limits lib wording r clock b).1 ≡ some old
  run_command-saved id old r clock b h =
      saved_outcome id old r clock
        (dispatch t limits lib wording r clock (parse_command lib r.text) b)
        (ap (saved_reply id) (dispatched r clock b) ∙ h)

  on_cached-saved :
      (id old : String) (r : ChatRequest) (clock : ℕ → ℕ) (cached : Result (Option String))
      (b : Backend t)
      → reply_to id b ≡ some old
      → reply_to id (on_cached t limits lib wording r clock cached b).1 ≡ some old
  on_cached-saved id old r clock (ok (some reply)) b h = h
  on_cached-saved id old r clock (ok none) b h = run_command-saved id old r clock b h
  on_cached-saved id old r clock (err x) b h = run_command-saved id old r clock b h

  execute-saved :
      (id old : String) (r : ChatRequest) (clock : ℕ → ℕ) (b : Backend t)
      → reply_to id b ≡ some old
      → reply_to id (execute t limits lib wording r clock b).1 ≡ some old
  unfolding execute
  execute-saved id old r clock b h =
      let (cached, e) = cached_reply r.message_id b.env in
      on_cached-saved id old r clock cached (record b { env = e })
        (ap (saved_reply id) (cached_reply-Keeps saved_messages r.message_id b.env) ∙ h)

  execute_all-saved :
      (id old : String) (rs : List (ChatRequest × (ℕ → ℕ))) (b : Backend t)
      → reply_to id b ≡ some old
      → reply_to id (execute_all rs b) ≡ some old
  execute_all-saved id old [] b h = h
  execute_all-saved id old ((r, clock) ∷ rs) b h =
      execute_all-saved id old rs _ (execute-saved id old r clock b h)

  first_outcome :
      (r : ChatRequest) (clock : ℕ → ℕ) (ran : Ran t)
      → saved_reply r.message_id ran.1.env.db.messages ≡ none
      → is_none (reply_to r.message_id (save_outcome t limits lib wording r clock ran).1) ≡ false
      → reply_to r.message_id (save_outcome t limits lib wording r clock ran).1
        ≡ some (save_outcome t limits lib wording r clock ran).0
  first_outcome r clock (outcome, b) before after =
      save_reply-first r.message_id (reply_text t limits lib wording outcome) (clock 7) b.env before
        after

  first_run :
      (r : ChatRequest) (clock : ℕ → ℕ) (b : Backend t)
      → reply_to r.message_id b ≡ none
      → is_none (reply_to r.message_id (run_command t limits lib wording r clock b).1) ≡ false
      → reply_to r.message_id (run_command t limits lib wording r clock b).1
        ≡ some (run_command t limits lib wording r clock b).0
  first_run r clock b before after =
      first_outcome r clock (dispatch t limits lib wording r clock (parse_command lib r.text) b)
        (ap (saved_reply r.message_id) (dispatched r clock b) ∙ before) after

  execute_first :
      (r : ChatRequest) (clock : ℕ → ℕ) (b : Backend t)
      → reply_to r.message_id b ≡ none
      → is_none (reply_to r.message_id (execute t limits lib wording r clock b).1) ≡ false
      → reply_to r.message_id (execute t limits lib wording r clock b).1
        ≡ some (execute t limits lib wording r clock b).0
  unfolding execute
  execute_first r clock b before after =
      let before' : saved_reply r.message_id (cached_reply r.message_id b.env).1.db.messages
          ≡ none =
        ap (saved_reply r.message_id) (cached_reply-Keeps saved_messages r.message_id b.env)
        ∙ before in
      elim (cached_reply-absent r.message_id b.env before) [
        | inl nothing ↦ rw nothing (first_run r clock _ before' (rw nothing at after))
        | inr failed ↦ rw failed (first_run r clock _ before' (rw failed at after))
      ]

  execute_cached :
      (r : ChatRequest) (clock : ℕ → ℕ) (b : Backend t) (reply : String)
      → (r.message_id == "") ≡ false
      → next_fails b.env.faults ≡ false
      → reply_to r.message_id b ≡ some reply
      → execute t limits lib wording r clock b ≡ (reply, record b { env = past b.env })
  unfolding execute
  execute_cached r clock b reply named runs saved =
      rw (cached_reply_lem r.message_id b.env named runs, saved) refl

  -- A message with an id, of which no reply was saved before and one was saved when it was executed: if
  -- it comes again, after any other messages, it is answered with the same reply, and neither the tables
  -- nor frps change, unless the query for the reply fails.
  pub execute-again :
      (r r' : ChatRequest) (clock clock' : ℕ → ℕ) (between : List (ChatRequest × (ℕ → ℕ)))
      (b : Backend t)
      → (r.message_id == "") ≡ false
      → r'.message_id ≡ r.message_id
      → reply_to r.message_id b ≡ none
      → is_none (reply_to r.message_id (execute t limits lib wording r clock b).1) ≡ false
      → next_fails (execute_all between (execute t limits lib wording r clock b).1).env.faults
        ≡ false
      → execute t limits lib wording r' clock'
          (execute_all between (execute t limits lib wording r clock b).1)
        ≡ (
          (execute t limits lib wording r clock b).0,
          record (execute_all between (execute t limits lib wording r clock b).1) {
            env = past (execute_all between (execute t limits lib wording r clock b).1).env;
          },
        )
  execute-again r r' clock clock' between b named same before after runs =
      let b₁ = (execute t limits lib wording r clock b).1 in
      let reply = (execute t limits lib wording r clock b).0 in
      execute_cached r' clock' (execute_all between b₁) reply (rw same named) runs (
        rw same
          (execute_all-saved r.message_id reply between b₁ (execute_first r clock b before after)))
