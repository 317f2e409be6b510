-- ===== src/Examples/Clients.antt =====
-- Runs of the managers of web socket clients and of the permission check.
use runner_io.Common.{◌≡◌, refl, List, [], ◌∷◌, none, if◌then◌else◌, str_eq}
use runner_io.Dto.Auth.{UserPermission}
use runner_io.Common.Bag.{put}
use runner_io.Ws.GroupClients.{GroupCodeDataClientManagerMap, add, remove_client}
use runner_io.Ws.GroupClients.Members.{members, methods-members}
use runner_io.Ws.AuditClients.{PersistAuditDataClient}
use runner_io.Ws.AuditClients.{
  add as audit_add, get as audit_get, remove_client as audit_remove_client,
}
use runner_io.Ws.AuditClients.Laws.{remove_client-add_again}

-- Client 1 is twice in the group, client 2 once.
abbrev some_group : GroupCodeDataClientManagerMap
some_group = ("runners", 1 ∷ 2 ∷ 1 ∷ []) ∷ []

-- The client 1 leaves the first place, not the one that it has got last.
methods-members_example :
    (members "runners" (add "runners" 1 some_group) ≡ (
      if str_eq "runners" "runners"
      then put 1 (members "runners" some_group)
      else members "runners" some_group))
    × (members "runners" (remove_client "runners" 1 (add "runners" 1 some_group))
        ≡ members "runners" some_group)
methods-members_example = methods-members "runners" "runners" 1 some_group

abbrev first_connection : PersistAuditDataClient
first_connection = record { conn = 1; sub = "ann" }

abbrev second_connection : PersistAuditDataClient
second_connection = record { conn = 2; sub = "ann" }

remove_client-add_again_example :
    audit_get "ann" (
      audit_remove_client first_connection
        (audit_add "ann" second_connection (audit_add "ann" first_connection [])))
    ≡ (if str_eq "ann" "ann" then none else audit_get "ann" [])
remove_client-add_again_example =
    remove_client-add_again first_connection second_connection [] "ann" refl

abbrev some_permissions : List UserPermission
some_permissions =
    record {
      permission_name = "read:runs";
      description = "";
      resource_server_name = "";
      resource_server_id = "";
      sources = [];
    }
    ∷ []
