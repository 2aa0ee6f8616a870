-- ===== src/Ws.antt =====
-- The websocket connections (internal/ws): the hub that knows them and the router of their messages.
pub mod Hub
pub mod Router
mod Examples
