-- ===== src/Feishu.antt =====
-- feishu/: the bot, with its rate limiter, its cards, its handlers and the delivery of its replies.
pub mod Rate
pub mod Cards
pub mod Bot
pub mod Delivery
mod Tests
