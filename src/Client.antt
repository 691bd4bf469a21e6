-- ===== src/Client.antt =====
-- The HTTP client of the XXL-JOB Admin (flask_xxljob/client/).
pub mod Result
pub mod Policy
pub mod Post
pub mod Callback
pub mod Admin
mod Tests
