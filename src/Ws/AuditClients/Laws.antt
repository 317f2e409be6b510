-- ===== src/Ws/AuditClients/Laws.antt =====
-- The manager of the clients that send points, over the life of two connections of one user.
use runner_io.Common.{◌≡◌, none, some, String, str_eq, if◌then◌else◌, arith}
use runner_io.Common.Map.{insert, lookup-insert, lookup-delete}
use runner_io.Ws.AuditClients.{
  PersistAuditDataClient, PersistAuditDataManagerMap, add, get, remove_client,
}

-- A user who connects again and then loses the first connection is not found any more, though the
-- second connection stands; the other users are not affected.
pub remove_client-add_again :
    (first second : PersistAuditDataClient) (m : PersistAuditDataManagerMap) (sub : String)
    → first.sub ≡ second.sub
    → get sub (remove_client first (add second.sub second (add first.sub first m)))
      ≡ (if str_eq second.sub sub then none else get sub m)
unfolding get remove_client add
remove_client-add_again first second m sub same =
    let once = insert first.sub first m in
    let twice = insert second.sub second once in
    ground (
      arith,
      lookup-delete first.sub sub twice,
      lookup-insert second.sub sub second once,
      lookup-insert first.sub sub first m,
    )

-- A user with one connection is found until that connection is removed; the other users are found as
-- before, all the time.
pub get-add :
    (client : PersistAuditDataClient) (m : PersistAuditDataManagerMap) (sub : String)
    → (get sub (add client.sub client m)
        ≡ (if str_eq client.sub sub then some client else get sub m))
      × (get sub (remove_client client (add client.sub client m))
          ≡ (if str_eq client.sub sub then none else get sub m))
unfolding get remove_client add
get-add client m sub = ground (
  arith,
  lookup-insert client.sub sub client m,
  lookup-delete client.sub sub (insert client.sub client m),
)
