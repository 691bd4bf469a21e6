-- ===== src/Model.antt =====
-- The values and requests of the protocol (flask_xxljob/model/).
pub mod Value
pub mod Coerce
pub mod Request
pub mod RoundTrip
pub mod Params
mod Tests
