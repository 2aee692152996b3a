-- ===== src/Realtime.antt =====
-- backend/internal/realtime and backend/internal/realtime/ws: the events that services publish, and
-- the websocket clients that subscribe to them.
pub mod Events
pub mod Tickets
pub mod Topics
pub mod Hub
pub mod Handler
pub mod Subscriptions
pub mod Privacy
pub mod Sessions
pub mod Examples
