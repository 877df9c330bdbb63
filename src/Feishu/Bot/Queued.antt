-- ===== src/Feishu/Bot/Queued.antt =====
-- What `EnqueueReply` of store/store.go leaves in the outbox for feishu/bot.go.
use frps_gateway.Base.{
  ℕ, String, ◌==◌, text_refl, ◌≡◌, refl, ◌∙◌, Bool, true, false, not, ◌&&◌, ◌||◌, ◌⊎◌, inl, inr,
  Bool-cases, List, [], ◌∷◌, ◌++◌, arith, All, has, has-append, has-update, update, is_none, unix,
}
use frps_gateway.Store.Schema.{Db, OutboxRow}
use frps_gateway.Store.Sql.{Env, Result, ok, err}
use frps_gateway.Store.Sql.Runs.{exec-cases}
use frps_gateway.Store.Outbox.{upsert_reply, enqueue_reply}

-- Whether a reply is under an id, and whether it has been sent.
abbrev pub has_reply_id : String → OutboxRow → Bool
has_reply_id x r = r.id == x

abbrev pub is_sent_as : String → OutboxRow → Bool
is_sent_as x r = r.id == x && not (is_none r.sent_at)

-- A row is of another id, or it has been sent, or it is for the chat and has the text.
abbrev pub Carries : String → String → String → OutboxRow → Type 0
Carries x chat_id body r =
    ((r.id == x) ≡ false)
    ⊎ ((is_none r.sent_at ≡ false) ⊎ ((r.chat_id ≡ chat_id) × (r.body ≡ body)))

-- A reply is in the outbox under an id: it is for the chat and has the text, unless it was sent before.
abbrev pub Queued : String → String → String → Db → Db → Type 0
Queued x chat_id body d d' =
    (has (has_reply_id x) d'.reply_outbox ≡ true)
    × All (Carries x chat_id body) d'.reply_outbox
    × (has (is_sent_as x) d'.reply_outbox ≡ has (is_sent_as x) d.reply_outbox)

update-Carries :
    (x chat_id body : String) (rs : List OutboxRow)
    → All (Carries x chat_id body) (
        update
          (λ r. r.id == x && is_none r.sent_at)
          (λ r. record r { chat_id = chat_id; body = body })
          rs)
update-Carries x chat_id body [] = tt
update-Carries x chat_id body (r ∷ rs) = (
  elim (Bool-cases (r.id == x && is_none r.sent_at)) [
    | inl hit ↦ rw hit (inr (inr (refl, refl)))
    | inr miss ↦ rw miss (elim (Bool-cases (r.id == x)) [
      | inl same ↦ inr (inl (ground (arith, miss, same)))
      | inr other ↦ inl other
    ])
  ],
  update-Carries x chat_id body rs,
)

update-is_sent_as :
    (x chat_id body : String) (rs : List OutboxRow)
    → has (is_sent_as x) (
        update
          (λ r. r.id == x && is_none r.sent_at)
          (λ r. record r { chat_id = chat_id; body = body })
          rs)
      ≡ has (is_sent_as x) rs
update-is_sent_as x chat_id body rs = has-update (is_sent_as x) _ _ rs (λ r. refl)

append-Carries :
    (x chat_id body : String) (rs : List OutboxRow) (q : OutboxRow)
    → has (has_reply_id x) rs ≡ false
    → q.chat_id ≡ chat_id
    → q.body ≡ body
    → All (Carries x chat_id body) (rs ++ q ∷ [])
append-Carries x chat_id body [] q new chat text = (inr (inr (chat, text)), tt)
append-Carries x chat_id body (r ∷ rs) q new chat text =
    (inl (ground (arith, new)), append-Carries x chat_id body rs q (ground (arith, new)) chat text)

upsert_reply-Queued :
    (x chat_id body : String) (now : ℕ) (d : Db)
    → Queued x chat_id body d (upsert_reply x chat_id body now d)
unfolding upsert_reply
upsert_reply-Queued x chat_id body now d = elim (Bool-cases (has (has_reply_id x) d.reply_outbox)) [
  | inl there ↦ rw there (
    has-update (has_reply_id x) _ (λ r. record r { chat_id = chat_id; body = body }) d.reply_outbox
          (λ r. refl)
        ∙ there,
    update-Carries x chat_id body d.reply_outbox,
    update-is_sent_as x chat_id body d.reply_outbox,
  )
  | inr new ↦ rw new (
    has-append (has_reply_id x) d.reply_outbox _ ∙ ground (arith, text_refl x),
    append-Carries x chat_id body d.reply_outbox _ new refl refl,
    has-append (is_sent_as x) d.reply_outbox _ ∙ ground arith,
  )
]

abbrev pub error_free : Result (Unit {0}) → Bool
error_free (ok u) = true
error_free (err x) = false

-- A reply that is stored without an error.
pub enqueue_reply-Queued :
    (x chat_id body : String) (now : ℕ) (e : Env)
    → error_free (enqueue_reply x chat_id body now e).0 ≡ true
    → Queued x chat_id body e.db (enqueue_reply x chat_id body now e).1.db
unfolding enqueue_reply
enqueue_reply-Queued x chat_id body now e h = elim (Bool-cases (x == "" || chat_id == "")) [
  | inl missing ↦ cc (rw missing at h)
  | inr given ↦ elim (exec-cases (upsert_reply x chat_id body (unix now)) e) [
    | inl broken ↦ cc (rw (given, broken) at h)
    | inr ran ↦ rw (given, ran) (upsert_reply-Queued x chat_id body (unix now) e.db)
  ]
]
