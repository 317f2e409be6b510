-- ===== src/Dto.antt =====
-- The data transfer objects of internal/dto.
pub mod Schema
pub mod Auth
