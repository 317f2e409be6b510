-- ===== src/Api.antt =====
-- The handlers of the web server.
pub mod Groups
pub mod PutOnQueue
pub mod EatQueue
pub mod Routes
pub mod AreaCalculator
