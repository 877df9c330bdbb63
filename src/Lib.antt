-- ===== src/Lib.antt =====
-- frps-gateway: A chat-driven gateway in front of the whitelist of frps, modelled part by part.
--
-- Users ask a Feishu bot for access; the bot, a page behind a one-time link, or an administrator's
-- console records a grant of an IP address in SQLite, and a reconciliation keeps the whitelist of frps in
-- line with the grants. A poller copies the access log of frps into the same database.
--
-- Files, each with the code it is about:
--   - Base and its children: shared notation, list and text lemmas, and Go's times as numbers.
--   - Store/Schema, Store/Sql: the tables of store/store.go as records of lists, and its statements as a
--   state monad `Sql` over them. A list of faults says which statements to come fail, so a theorem covers
--   a failure at each of them; a transaction that does not commit is rolled back.
--   - Store/Messages, Store/Outbox, Store/Inbox, Store/Tokens, Store/Grants, Store/Admin, Store/Access,
--   Store/Pages: the methods of store/store.go, one function each, named as there (`ConsumeTokenIPs` is
--   `consume_token_ips`). The time that a call reads is an argument, in nanoseconds; where it is read
--   twice there are two. The limits are at least 0, since a negative limit is treated as 0.
--   - Executor: `Reconcile` of executor/executor.go over the store and the client of frps;
--     Executor/Commands: `Execute`, and `add`, `remove` and `list`, which it dispatches to.
--   - Command: `Parse` of command/parser.go, which reads chat messages.
--   - Config: `validate` of config/config.go; Config/Secret: its `resolveSecret`.
--   - Frps: `Add`, `Remove` and `doLimit` of frps/client.go over a transport, with the API of the
--   whitelist of docs/api.md as a hypothesis in Frps/Whitelist: addresses have a normal form, and entries
--   expire by a clock of frps.
--   - Ingest: `store` and `pruneOnce` of ingest/ingest.go.
--   - Feishu/Rate: the rate limiter of feishu/bot.go; Feishu/Bot: `handle` and `onCardAction` over an
--     executor; Feishu/Delivery/Wired: that executor, by executor/executor.go as main.go wires it;
--     Feishu/Delivery: `sendReply`, `flushReplies` and a round of `runInbox`; Feishu/Cards: the
--     cards of feishu/cards.go as data.
--   - Authorize: whose address a request of authorize/server.go comes from; Authorize/Link and
--     Authorize/Confirm: `NewLink`, and `get` and `post` with their answers.
--   - Admin/Knock: the knock in front of the login of admin/admin.go; Admin/Sessions: `login` with its
--     failures, the sessions and the gate of `ServeHTTP`; Admin/Changes: the handlers that change
--     grants, over a reconciler, which Admin/Changes/Reconciling fills with the executor.
--   - Duration: `Format` of duration/duration.go; Duration/Parse: its `Parse`.
-- The modules named Tests run the functions on small inputs.
--
-- The loop of `Parse` in Duration/Parse runs on fuel, one round for each character of its text; every
-- other loop goes over a list, or counts its rounds as the code does. SQLite, SHA-256, LIKE, the network, net, net/netip, strconv, unicode,
-- regexp and random tokens are parameters. The order in which Go ranges over a map is a
-- parameter where it can be seen. The store has one connection, so its transactions do not interleave.
-- Not modelled: the HTTP servers, HTML pages, the JSON of cards, the Feishu client, the
-- reading of the configuration from TOML, the wiring in main.go, logging, the background tickers, and
-- the dashboard.
pub mod Base
pub mod Store
pub mod Feishu
pub mod Authorize
pub mod Duration
pub mod Frps
pub mod Executor
pub mod Ingest
pub mod Admin
pub mod Command
pub mod Config
