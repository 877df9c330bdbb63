-- ===== src/Store/Messages.antt =====
-- store/store.go: the replies kept for redelivered messages.
pub mod Replies
use frps_gateway.Base.{
  ℕ, String, Option, none, some, [], ◌∷◌, ◌++◌, ◌==◌, find, has, unix, if◌then◌else◌,
}
use frps_gateway.Store.Schema.{Db}
use frps_gateway.Store.Sql.{Sql, ◌>>=◌, pure, query, exec}

-- CachedReply; `none` is the result `("", false, nil)`.
unfoldable pub cached_reply : String → Sql (Option String)
cached_reply message_id = if message_id == "" then pure none else do
  found ← query λ d. find (λ m. m.message_id == message_id) d.messages
  pure (elim found [ none ↦ none | some m ↦ some m.reply ])

-- INSERT ... ON CONFLICT(message_id) DO NOTHING
abbrev pub add_reply : String → String → ℕ → Db → Db
add_reply message_id reply now d =
    if has (λ m. m.message_id == message_id) d.messages then d else record d {
      messages =
          d.messages
          ++ record { message_id = message_id; reply = reply; created_at = unix now } ∷ [];
    }

-- SaveReply
unfoldable pub save_reply : String → String → ℕ → Sql Unit
save_reply message_id reply now =
    if message_id == "" then pure tt else exec (add_reply message_id reply now)
