-- ===== src/Services.antt =====
-- internal/services.
pub mod Distance
pub mod PointInPolygon
pub mod PointsInPolygon
pub mod SortPoints
pub mod EatPolygon
pub mod MergePolygons
pub mod CleanPolygons
pub mod LiveLines
pub mod RemovePoints
pub mod ProcessData
pub mod RunProcessor
pub mod Consumer
pub mod Area
