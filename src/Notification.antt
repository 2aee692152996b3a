-- ===== src/Notification.antt =====
-- backend/internal/notification: the inbox of each user, the notifications to the members of a
-- classroom, and the rules that turn changes of devices and sensor readings into alerts.
pub mod Repository
pub mod Service
pub mod Trigger
pub mod Cooldown
pub mod Delivery
pub mod Inbox
pub mod Examples
