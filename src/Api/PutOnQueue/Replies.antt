-- ===== src/Api/PutOnQueue/Replies.antt =====
-- Whom the handlers of the live lines reply to.
use mathlib.Core.Logic.Or
use mathlib.Core.List.{Mem, Mem-prop, mem-cons, mem-cons_self, mem-cons_of_mem, map-append}
use runner_io.Common.{
  ◌≡◌, ◌≢◌, refl, ap, ◌∙◌, subst, true, false, Bool, List, [], ◌∷◌, ◌++◌, Option, none, some,
  String, eq_iff, All, All-map, arith,
}
use runner_io.Common.Map.{lookup-All, insert-All, delete-All}
use runner_io.Dto.Schema.{RunnerLiveLinesSchemaRequest}
use runner_io.Ws.AuditClients.{
  PersistAuditDataClient, PersistAuditDataManagerMap, new_persist_audit_data_manager_map, add, get,
  remove_client,
}
use runner_io.Amqp.{Channel}
use runner_io.Api.PutOnQueue.{Json, Connection, reply}
use runner_io.Api.PutOnQueue.Connections.{
  Phase, reading, published, found, Running, Server, clients, started, Step, connects, publishes,
  looks_up, replies, leaves, Reach, here, later,
}

-- The client that a handler is about to reply to has its user.
abbrev pub RepliesTo : Phase → String → Type 0
RepliesTo reading sub = Unit
RepliesTo published sub = Unit
RepliesTo (found none) sub = Unit
RepliesTo (found (some client)) sub = client.sub ≡ sub

-- Every entry of the manager is a client of the user that it stands under, and of these clients.
abbrev pub AreOpen : List PersistAuditDataClient → PersistAuditDataManagerMap → Type 0
AreOpen live m = All (λ e. (e.1.sub ≡ e.0) × Mem e.1 live) m

record IsOrderly {F S : Type 0} (v : Server F S) : Type 0 where
  entries : AreOpen (clients v.running) v.manager
  targets : All (λ r. RepliesTo r.phase r.client.sub) v.running

mem-less :
    {A : Type 0} (xs : List A) {a b : A} (ys : List A)
    → Mem a (xs ++ b ∷ ys)
    → a ≢ b
    → Mem a (xs ++ ys)
mem-less [] ys m differ = Or.elim Mem-prop (mem-cons.0 m) (λ e. absurd (differ e)) (λ r. r)
mem-less (x ∷ xs) ys m differ =
    Or.elim Mem-prop (mem-cons.0 m) (λ e. rw e mem-cons_self)
      (λ r. mem-cons_of_mem x (mem-less xs ys r differ))

All-put {κ} :
    {A : Type 0} (P : A → Type κ) (xs : List A) (a b : A) (ys : List A)
    → (P a → P b)
    → All P (xs ++ a ∷ ys)
    → All P (xs ++ b ∷ ys)
All-put P [] a b ys f all = (f all.0, all.1)
All-put P (x ∷ xs) a b ys f all = (all.0, All-put P xs a b ys f all.1)

All-less {κ} :
    {A : Type 0} (P : A → Type κ) (xs : List A) (a : A) (ys : List A)
    → All P (xs ++ a ∷ ys)
    → All P (xs ++ ys)
All-less P [] a ys all = all.1
All-less P (x ∷ xs) a ys all = (all.0, All-less P xs a ys all.1)

-- A client is taken out of the manager, and those of other users stay.
remove_client-AreOpen :
    (live left : List PersistAuditDataClient) (client : PersistAuditDataClient)
    (m : PersistAuditDataManagerMap)
    → ((other : PersistAuditDataClient) → other.sub ≢ client.sub → Mem other live → Mem other left)
    → AreOpen live m
    → AreOpen left (remove_client client m)
unfolding remove_client
remove_client-AreOpen live left client m stay all =
    delete-All (λ j v. (v.sub ≡ j) × Mem v live) (λ j v. (v.sub ≡ j) × Mem v left) client.sub m
      (λ j v other h. (h.0, stay v (λ same. ground (arith, eq_iff j client.sub, h.0)) h.1)) all

reply-AreOpen :
    {F S : Type 0} (live : List PersistAuditDataClient) (o : Option PersistAuditDataClient)
    (written : Bool) (k : Connection F S)
    → AreOpen live k.manager
    → AreOpen live (reply o written k).manager
unfolding reply
reply-AreOpen live none written k all = all
reply-AreOpen live (some client) true k all = all
reply-AreOpen live (some client) false k all =
    remove_client-AreOpen live live client k.manager (λ other differ m. m) all

get-RepliesTo :
    (live : List PersistAuditDataClient) (sub : String) (m : PersistAuditDataManagerMap)
    (o : Option PersistAuditDataClient)
    → get sub m ≡ o
    → AreOpen live m
    → RepliesTo (found o) sub
unfolding get
get-RepliesTo live sub m none e all = tt
get-RepliesTo live sub m (some client) e all =
    (lookup-All (λ j v. (v.sub ≡ j) × Mem v live) sub m all e).0

-- A handler ends, and the clients of other users stay.
left_clients :
    {F : Type 0} (running before : List (Running F)) (r : Running F) (after : List (Running F))
    (other : PersistAuditDataClient)
    → running ≡ before ++ r ∷ after
    → other.sub ≢ r.client.sub
    → Mem other (clients running)
    → Mem other (clients (before ++ after))
left_clients running before r after other e differ m =
    rw (map-append (λ r. r.client) before after) (
      mem-less (clients before) (clients after)
        (rw (e, map-append (λ r. r.client) before (r ∷ after)) at m)
        (λ same. differ (ap (λ c. c.sub) same)))

-- A handler that is in another phase is the same client.
clients-put :
    {F : Type 0} (before : List (Running F)) (r r' : Running F) (after : List (Running F))
    → r.client ≡ r'.client
    → clients (before ++ r ∷ after) ≡ clients (before ++ r' ∷ after)
clients-put [] r r' after e = ap (λ x. x ∷ clients after) e
clients-put (x ∷ before) r r' after e = ap (λ xs. x.client ∷ xs) (clients-put before r r' after e)

module _ {B F S : Type 0} (json : Json B F) (c : Channel B S)
    (blank : RunnerLiveLinesSchemaRequest F) where
  -- One handler goes on to another phase.
  moved :
      (v : Server F S) (before : List (Running F)) (r r' : Running F) (after : List (Running F))
      (m : PersistAuditDataManagerMap) (s : S)
      → v.running ≡ before ++ r ∷ after
      → r.client ≡ r'.client
      → AreOpen (clients v.running) m
      → RepliesTo r'.phase r'.client.sub
      → IsOrderly v
      → IsOrderly (record { manager = m; broker = s; running = before ++ r' ∷ after })
  moved v before r r' after m s e same entries fits i = record {
    entries =
        subst (λ live. AreOpen live m) (ap clients e ∙ clients-put before r r' after same) entries;
    targets =
        All-put (λ r. RepliesTo r.phase r.client.sub) before r r' after (λ h. fits)
          (rw e at i.targets);
  }

  Step-IsOrderly : {v w : Server F S} → Step json c blank v w → IsOrderly v → IsOrderly w
  unfolding add
  Step-IsOrderly (connects v client statuses) i = record {
    entries =
        insert-All (λ j e. (e.sub ≡ j) × Mem e (client ∷ clients v.running)) client.sub client
          v.manager (refl, mem-cons_self)
          (All-map _ _ (λ e h. (h.0, mem-cons_of_mem client h.1)) v.manager i.entries);
    targets = (tt, i.targets);
  }
  Step-IsOrderly (publishes v before r after message k e phase read group k' done) i =
      moved v before r _ after v.manager k'.broker e refl i.entries tt i
  Step-IsOrderly (looks_up v before r after e phase) i =
      moved v before r _ after v.manager v.broker e refl i.entries
        (get-RepliesTo (clients v.running) r.client.sub v.manager _ refl i.entries) i
  Step-IsOrderly (replies v before r after o written e phase) i =
      moved v before r _ after _ v.broker e refl
        (reply-AreOpen (clients v.running) o written _ i.entries) tt i
  Step-IsOrderly (leaves v before r after e) i = record {
    entries =
        remove_client-AreOpen (clients v.running) _ r.client v.manager
          (λ other differ m. left_clients v.running before r after other e differ m) i.entries;
    targets = All-less (λ r. RepliesTo r.phase r.client.sub) before r after (rw e at i.targets);
  }

  Reach-IsOrderly : {v w : Server F S} → Reach json c blank v w → IsOrderly v → IsOrderly w
  Reach-IsOrderly here i = i
  Reach-IsOrderly (later r step) i = Step-IsOrderly step (Reach-IsOrderly r i)

  -- Whatever connections come, send and go at the same time on a server that has begun without any, and
  -- whichever writes fail: every client in the manager is that of a handler that runs, under its own
  -- user, and the client that a handler has got for its reply is one of the sender's: no reply goes to
  -- another user.
  pub Reach-RepliesTo :
      (s : S) (v : Server F S)
      → Reach json c blank (started s) v
      → AreOpen (clients v.running) v.manager × All (λ r. RepliesTo r.phase r.client.sub) v.running
  unfolding new_persist_audit_data_manager_map
  Reach-RepliesTo s v run =
      let i = Reach-IsOrderly run (record { entries = tt; targets = tt }) in (i.entries, i.targets)
