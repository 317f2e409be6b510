-- ===== src/Api/PutOnQueue/Upgrade.antt =====
-- The whole handler of persist_audit_data_handler.go: the upgrade of the connection and the user's
-- header in front of what Api/PutOnQueue.antt models.
use runner_io.Common.{ℕ, Bool, true, false, List, Option, none, some, String}
use runner_io.Dto.Auth.{UserData}
use runner_io.Ws.AuditClients.{PersistAuditDataClient, add, remove_client}
use runner_io.Amqp.{Channel}
use runner_io.Api.PutOnQueue.{
  Json, Frame, Connection, with_manager, with_status, fail_if_error, persist_audit_data_handler,
}
use runner_io.Api.PutOnQueue.Audit.{IsKept, fail_if_error-broker, persist_audit_data_handler-IsKept}

-- `json.Unmarshal` of the header: what is decoded, and an error, where there is one.
abbrev pub UserDecoder : Type 0
UserDecoder = String → UserData × Option String

module _ {B F S : Type 0} (json : Json B F) (c : Channel B S) (user_of : UserDecoder) where
  -- Without a connection the first read panics, when the client has been added; the deferred calls take
  -- it out again.
  unfoldable pub broken : PersistAuditDataClient → Connection F S → Connection F S
  unfolding add remove_client
  broken client k = with_manager (remove_client client (add client.sub client k.manager)) k

  abbrev pub client_of : ℕ → UserData → PersistAuditDataClient
  client_of conn user = record { conn = conn; sub = user.sub }

  -- The frames are those of the upgraded connection, `none` where the upgrade fails; the flag says
  -- whether the handler panics. Neither a failed upgrade nor a header with an error ends it.
  unfoldable pub serve :
      ℕ
      → UserData × Option String
      → Option (List (Frame B))
      → Connection F S
      → Connection F S × Bool
  unfolding broken fail_if_error persist_audit_data_handler
  serve conn (user, e) none k =
      (broken (client_of conn user) (fail_if_error e 500 (with_status 500 k)), true)
  serve conn (user, e) (some frames) k = (
    persist_audit_data_handler json c user.sub (client_of conn user) frames (fail_if_error e 500 k),
    false,
  )

  unfoldable pub put_on_queue :
      ℕ → String → Option (List (Frame B)) → Connection F S → Connection F S × Bool
  unfolding serve
  put_on_queue conn header upgraded k = serve conn (user_of header) upgraded k

  -- Whatever the connection sends, and also where the upgrade fails or the header does not parse: what
  -- is true of the broker, and stays true with every publication of a line that has a group and the
  -- user of the header as its sender, is true when the handler ends.
  pub put_on_queue-IsKept :
      (P : S → Type 0) (conn : ℕ) (header : String) (upgraded : Option (List (Frame B)))
      (k : Connection F S)
      → IsKept json c (user_of header).0.sub P
      → P k.broker
      → P (put_on_queue conn header upgraded k).0.broker
  unfolding put_on_queue serve broken
  put_on_queue-IsKept P conn header none k kept p =
      rw (fail_if_error-broker (user_of header).1 500 (with_status 500 k)) p
  put_on_queue-IsKept P conn header (some frames) k kept p =
      persist_audit_data_handler-IsKept json c (user_of header).0.sub P kept
        (client_of conn (user_of header).0) frames (fail_if_error (user_of header).1 500 k)
        (rw (fail_if_error-broker (user_of header).1 500 k) p)
