-- ===== src/Api/Groups/Requests.antt =====
-- Requests of internal/api/runner_group that run at the same time on one collection: a handler that
-- joins waits between its read and its write, one that creates a group between CreateCode and InsertOne.
use runner_io.Common.{◌≡◌, List, [], ◌∷◌, ◌++◌, String}
use runner_io.Common.Int.{ℤ}
use runner_io.Common.Result.{err}
use runner_io.Dto.Schema.{RunnerGroupSchema}
use runner_io.Api.Groups.{
  GroupCollection, no_documents, joining, join_read, join_write, inserted, new_group,
}

-- The collection, the code and the members that each waiting join is about to write, and the groups that
-- are about to be inserted.
pub record Requests (S : Type 0) : Type 0 where
  pub collection : S
  pub joins : List (String × List String)
  pub creates : List RunnerGroupSchema

abbrev pub idle : {S : Type 0} → S → Requests S
idle s = record { collection = s; joins = []; creates = [] }

-- A request that ends at its read, or before it, changes nothing and has no step. `chooses` is the round
-- of CreateCode that returns: the driver has reported that no document has the code.
pub data Step {S : Type 0} (c : GroupCollection S) : Requests S → Requests S → Type 0 where
  reads :
      (r : Requests S) (code sub : String) (members : List String)
      → join_read c code sub r.collection ≡ joining members
      → Step c r (record r { joins = (code, members) ∷ r.joins })
  writes :
      (r : Requests S) (before : List (String × List String)) (code : String)
      (members : List String) (after : List (String × List String))
      → r.joins ≡ before ++ (code, members) ∷ after
      → Step c r (record r {
        collection = (join_write c code (joining members) r.collection).1;
        joins = before ++ after;
      })
  chooses :
      (r : Requests S) (sub name code : String) (now : ℤ)
      → c.find_one "code" code r.collection ≡ err no_documents
      → Step c r (record r { creates = new_group sub name now code ∷ r.creates })
  inserts :
      (r : Requests S) (before : List RunnerGroupSchema) (g : RunnerGroupSchema)
      (after : List RunnerGroupSchema)
      → r.creates ≡ before ++ g ∷ after
      → Step c r (record r {
        collection = (inserted c r.collection (c.insert_one g r.collection)).1;
        creates = before ++ after;
      })

pub data Reach {S : Type 0} (c : GroupCollection S) (r : Requests S) : Requests S → Type 0 where
  here : Reach c r r
  later : {p q : Requests S} → Reach c r p → Step c p q → Reach c r q
