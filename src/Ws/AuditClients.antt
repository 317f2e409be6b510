-- ===== src/Ws/AuditClients.antt =====
-- internal/dto/ws/persist_audit_data.go. A client is a pointer, here a number, and its `Sub`.
pub mod Laws
use runner_io.Common.{ℕ, Option, String, []}
use runner_io.Common.Map.{Map, lookup, insert, delete}

pub record PersistAuditDataClient : Type 0 where
  pub conn : ℕ
  pub sub : String

abbrev pub PersistAuditDataManagerMap : Type 0
PersistAuditDataManagerMap = Map PersistAuditDataClient

unfoldable pub new_persist_audit_data_manager_map : PersistAuditDataManagerMap
new_persist_audit_data_manager_map = []

unfoldable pub add :
    String → PersistAuditDataClient → PersistAuditDataManagerMap → PersistAuditDataManagerMap
unfolding insert
add key client m = insert key client m

unfoldable pub remove : String → PersistAuditDataManagerMap → PersistAuditDataManagerMap
unfolding delete
remove key m = delete key m

unfoldable pub get : String → PersistAuditDataManagerMap → Option PersistAuditDataClient
unfolding lookup
get key m = lookup key m

unfoldable pub remove_client :
    PersistAuditDataClient → PersistAuditDataManagerMap → PersistAuditDataManagerMap
unfolding delete
remove_client client m = delete client.sub m
