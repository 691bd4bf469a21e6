-- ===== src/Protocol.antt =====
-- The endpoints that the Admin calls (flask_xxljob/protocol/, flask_xxljob/response/).
pub mod Response
pub mod Parser
pub mod Blueprint
pub mod Hooks
mod Tests
