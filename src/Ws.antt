-- ===== src/Ws.antt =====
-- internal/dto/ws: the managers of the websocket clients. Each method holds the manager's mutex from
-- its first to its last line, so it is one step.
pub mod GroupClients
pub mod AuditClients
pub mod GroupSlices
