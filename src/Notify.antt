-- ===== src/Notify.antt =====
-- internal/notify: the Telegram notifier: what a message says, how it is sent, and when a message that
-- is in the chat is edited.
pub mod Format
pub mod Transport
pub mod Notifier
pub mod Http
