-- ===== src/Store/Messages/Replies.antt =====
-- What CachedReply of store/store.go reads, and what SaveReply keeps.
use frps_gateway.Base.{
  ℕ, String, false, ◌≡◌, refl, ◌∙◌, ap, Option, none, some, is_none, List, [], ◌∷◌, ◌++◌, ◌==◌,
  text_refl, ◌⊎◌, inl, inr, Bool-cases, find, has, unix, if◌then◌else◌,
}
use frps_gateway.Store.Schema.{Db, Message}
use frps_gateway.Store.Sql.{Env, ok, err, sqlite, next_fails, past, pure}
use frps_gateway.Store.Sql.Runs.{query_runs, query_fails, exec-cases}
use frps_gateway.Store.Sql.Frames.{Keeps, Keeps-query, Keeps-bind, Keeps-exec}
use frps_gateway.Store.Messages.{cached_reply, save_reply, add_reply}

abbrev pub reply_of : Option Message → Option String
reply_of none = none
reply_of (some m) = some m.reply

-- The reply that the table has for a message.
abbrev pub saved_reply : String → List Message → Option String
saved_reply id [] = none
saved_reply id (m ∷ ms) = if m.message_id == id then some m.reply else saved_reply id ms

reply_of-find :
    (id : String) (ms : List Message)
    → reply_of (find (λ m. m.message_id == id) ms) ≡ saved_reply id ms
reply_of-find id [] = refl
reply_of-find id (m ∷ ms) = elim (Bool-cases (m.message_id == id)) [
  | inl h ↦ rw h refl
  | inr h ↦ rw h (reply_of-find id ms)
]

none-has :
    (id : String) (ms : List Message)
    → saved_reply id ms ≡ none
    → has (λ m. m.message_id == id) ms ≡ false
none-has id [] h = refl
none-has id (m ∷ ms) h = elim (Bool-cases (m.message_id == id)) [
  | inl same ↦ cc (rw same at h)
  | inr other ↦ rw other (none-has id ms (rw other at h))
]

-- A row at the end does not change a reply that is there.
saved_reply-append :
    (id : String) (ms : List Message) (m : Message) (reply : String)
    → saved_reply id ms ≡ some reply
    → saved_reply id (ms ++ m ∷ []) ≡ some reply
saved_reply-append id [] m reply h = cc h
saved_reply-append id (x ∷ ms) m reply h = elim (Bool-cases (x.message_id == id)) [
  | inl same ↦ rw same (rw same at h)
  | inr other ↦ rw other (saved_reply-append id ms m reply (rw other at h))
]

saved_reply-first :
    (id : String) (ms : List Message) (m : Message)
    → saved_reply id ms ≡ none
    → m.message_id ≡ id
    → saved_reply id (ms ++ m ∷ []) ≡ some m.reply
saved_reply-first id [] m h same = rw (same, text_refl id) refl
saved_reply-first id (x ∷ ms) m h same = elim (Bool-cases (x.message_id == id)) [
  | inl hit ↦ cc (rw hit at h)
  | inr other ↦ rw other (saved_reply-first id ms m (rw other at h) same)
]

-- A query that runs reads the reply of the table.
pub cached_reply_lem :
    (id : String) (e : Env)
    → (id == "") ≡ false
    → next_fails e.faults ≡ false
    → cached_reply id e ≡ (ok (saved_reply id e.db.messages), past e)
unfolding cached_reply
cached_reply_lem id e named runs = elim (Bool-cases (id == "")) [
  | inl unnamed ↦ cc (unnamed, named)
  | inr h ↦ rw h (
      query_runs (λ d. find (λ m. m.message_id == id) d.messages) _ e runs
      ∙ ap (λ o. (ok o, past e))
          (elim_lem (find (λ m. m.message_id == id) e.db.messages)
            ∙ reply_of-find id e.db.messages))
]
  where
    elim_lem : (o : Option Message) → elim o [ none ↦ none | some m ↦ some m.reply ] ≡ reply_of o
    elim_lem none = refl
    elim_lem (some m) = refl

-- Nothing is read of a reply that is not there.
pub cached_reply-absent :
    (id : String) (e : Env)
    → saved_reply id e.db.messages ≡ none
    → ((cached_reply id e).0 ≡ ok none) ⊎ ((cached_reply id e).0 ≡ err sqlite)
unfolding cached_reply
cached_reply-absent id e absent = elim (Bool-cases (id == "")) [
  | inl unnamed ↦ inl (rw unnamed refl)
  | inr named ↦ elim (Bool-cases (next_fails e.faults)) [
    | inl fails ↦ inr (
        rw
          (
            named,
            query_fails (λ d. find (λ m. m.message_id == id) d.messages)
                (λ o. pure (elim o [ none ↦ none | some m ↦ some m.reply ])) e fails,
          )
          refl)
    | inr runs ↦ inl (ap (λ o. o.0) (cached_reply_lem id e named runs) ∙ ap ok absent)
  ]
]

pub cached_reply-Keeps {ℓ} :
    {B : Type ℓ} (view : Db → B) (id : String) → Keeps view (cached_reply id)
unfolding cached_reply
cached_reply-Keeps view id = elim (Bool-cases (id == "")) [
  | inl h ↦ rw h (λ e. refl)
  | inr h ↦ rw h (Keeps-bind view _ _ (Keeps-query view _) (λ o e. refl))
]

-- Saving a reply leaves what is not a saved reply alone.
pub save_reply-Keeps {ℓ} :
    {B : Type ℓ} (view : Db → B) (id reply : String) (now : ℕ)
    → ((d : Db) (ms : List Message) → view (record d { messages = ms }) ≡ view d)
    → Keeps view (save_reply id reply now)
unfolding save_reply
save_reply-Keeps view id reply now h = elim (Bool-cases (id == "")) [
  | inl k ↦ rw k (λ e. refl)
  | inr k ↦ rw k (Keeps-exec view (add_reply id reply now) keep)
]
  where
    keep : (d : Db) → view (add_reply id reply now d) ≡ view d
    keep d = elim (Bool-cases (has (λ m. m.message_id == id) d.messages)) [
      | inl known ↦ rw known refl
      | inr new ↦ rw new (h d _)
    ]

-- What a run of SaveReply leaves of the saved replies.
pub save_reply-saved :
    (id reply : String) (now : ℕ) (e : Env) (x : String) (old : String)
    → saved_reply x e.db.messages ≡ some old
    → saved_reply x (save_reply id reply now e).1.db.messages ≡ some old
unfolding save_reply
save_reply-saved id reply now e x old h = elim (Bool-cases (id == "")) [
  | inl k ↦ rw k h
  | inr k ↦ elim (exec-cases (add_reply id reply now) e) [
    | inl failed ↦ rw (k, failed) h
    | inr ran ↦ elim (Bool-cases (has (λ m. m.message_id == id) e.db.messages)) [
      | inl known ↦ rw (k, ran, known) h
      | inr new ↦ rw (k, ran, new) (saved_reply-append x e.db.messages _ old h)
    ]
  ]
]

-- A reply that is there after SaveReply, and was not before, is the one saved.
pub save_reply-first :
    (id reply : String) (now : ℕ) (e : Env)
    → saved_reply id e.db.messages ≡ none
    → is_none (saved_reply id (save_reply id reply now e).1.db.messages) ≡ false
    → saved_reply id (save_reply id reply now e).1.db.messages ≡ some reply
unfolding save_reply
save_reply-first id reply now e before after = elim (Bool-cases (id == "")) [
  | inl k ↦ cc (rw (k, before) at after)
  | inr k ↦ elim (exec-cases (add_reply id reply now) e) [
    | inl failed ↦ cc (rw (k, failed, before) at after)
    | inr ran ↦
        rw (k, ran, none-has id e.db.messages before)
          (saved_reply-first id e.db.messages
            (record { message_id = id; reply = reply; created_at = unix now }) before refl)
  ]
]
