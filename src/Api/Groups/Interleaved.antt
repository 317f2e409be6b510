-- ===== src/Api/Groups/Interleaved.antt =====
-- Requests that run at the same time, on a collection as the driver documents it.
use runner_io.Common.{
  ◌≡◌, refl, sym, ap, ◌∙◌, List, [], ◌∷◌, ◌++◌, Option, none, some, String, All, All-append,
  All-map, contains_func, arith,
}
use runner_io.Common.Result.{Result, ok, err}
use runner_io.Dto.Schema.{RunnerGroupSchema}
use runner_io.Api.Groups.{
  GroupCollection, FindError, joining, check_group, join_read, join_write, updated, inserted,
  new_group,
}
use runner_io.Api.Groups.Members.{
  is_value, first_match, IsCollection, AreSound, check_group-joining, check_group-AreSound,
  first_match-All,
}
use runner_io.Api.Groups.Requests.{
  Requests, idle, Step, reads, writes, chooses, inserts, Reach, here, later,
}
use runner_io.Api.Groups.Owners.{
  LeadsWith, IsFit, All-taken, first_match-append, first_match-set_first, set_first-IsFit,
}

module _ {S : Type 0} (c : GroupCollection S) (d : IsCollection c) where
  -- The members that a join is about to write, against the first group with the code.
  abbrev FitsIn : List RunnerGroupSchema → String × List String → Type 0
  FitsIn ds join =
      AreSound join.1
      × (g : RunnerGroupSchema) × (first_match (λ g. is_value join.0 (d.field_of "code" g)) ds
          ≡ some g)
      × LeadsWith g.owner join.1

  -- The groups, those to be inserted, and the members to be written.
  record IsOrderly (r : Requests S) : Type 0 where
    groups : All IsFit (d.documents r.collection)
    joins : All (FitsIn (d.documents r.collection)) r.joins
    creates : All IsFit r.creates

  read-FitsIn :
      (code sub : String) (members : List String) (ds : List RunnerGroupSchema)
      (found : Result FindError RunnerGroupSchema)
      → ((g : RunnerGroupSchema)
          → found ≡ ok g
          → first_match (λ g. is_value code (d.field_of "code" g)) ds ≡ some g)
      → All IsFit ds
      → check_group sub found ≡ joining members
      → FitsIn ds (code, members)
  unfolding check_group
  read-FitsIn code sub members ds (err e) first all joined = cc
  read-FitsIn code sub members ds (ok g) first all joined =
      let (sound, (rest, led)) = first_match-All IsFit _ ds g all (first g refl) in
      let (same, new, room) = check_group-joining sub g members joined in
      (
        check_group-AreSound sub g members sound joined,
        g,
        first g refl,
        (rest ++ sub ∷ [], same ∙ ap (λ xs. xs ++ sub ∷ []) led),
      )

  updated-IsOrderly :
      (code : String) (members : List String) (waiting : List (String × List String)) (s : S)
      (o : Option S)
      → c.update_one "code" code members s ≡ o
      → FitsIn (d.documents s) (code, members)
      → All IsFit (d.documents s)
      → All (FitsIn (d.documents s)) waiting
      → All IsFit (d.documents ((updated c s o).1))
        × All (FitsIn (d.documents ((updated c s o).1))) waiting
  unfolding updated
  updated-IsOrderly code members waiting s none wrote fits all joins = (all, joins)
  updated-IsOrderly code members waiting s (some s') wrote (sound, g, first, leads) all joins =
      rw (d.update-first "code" code members s s' wrote) (
        set_first-IsFit _ members (d.documents s) g sound first leads all,
        All-map _ _
            (λ join fits.
              let (h, found, same) =
                first_match-set_first (λ g. is_value join.0 (d.field_of "code" g)) _ members
                  (d.documents s) fits.1 (λ k. ap (is_value join.0) (d.keeps_code members k))
                  fits.2 in
              (fits.0, h, found, (fits.3.0, fits.3.1 ∙ ap (λ o. o ∷ fits.3.0) (sym same))))
            waiting joins,
      )

  inserted-IsOrderly :
      (g : RunnerGroupSchema) (waiting : List (String × List String)) (s : S) (o : Option S)
      → c.insert_one g s ≡ o
      → IsFit g
      → All IsFit (d.documents s)
      → All (FitsIn (d.documents s)) waiting
      → All IsFit (d.documents ((inserted c s o).1))
        × All (FitsIn (d.documents ((inserted c s o).1))) waiting
  unfolding inserted
  inserted-IsOrderly g waiting s none wrote fit all joins = (all, joins)
  inserted-IsOrderly g waiting s (some s') wrote fit all joins = rw (d.insert-last g s s' wrote) (
    All-append IsFit (d.documents s) (g ∷ []) all (fit, tt),
    All-map _ _
        (λ join fits.
          (fits.0, fits.1, first_match-append _ (d.documents s) (g ∷ []) fits.1 fits.2, fits.3))
        waiting joins,
  )

  Step-IsOrderly : {p q : Requests S} → Step c p q → IsOrderly p → IsOrderly q
  unfolding join_read join_write new_group contains_func
  Step-IsOrderly (reads r code sub members joined) i = record {
    groups = i.groups;
    joins = (
      read-FitsIn code sub members (d.documents r.collection) _
          (λ g found. d.find-first "code" code r.collection g found) i.groups joined,
      i.joins,
    );
    creates = i.creates;
  }
  Step-IsOrderly (writes r before code members after waits) i =
      let (fits, rest) = All-taken _ before (code, members) after (rw waits at i.joins) in
      let (groups, joins) =
        updated-IsOrderly code members (before ++ after) r.collection _ refl fits i.groups rest in
      record { groups = groups; joins = joins; creates = i.creates }
  Step-IsOrderly (chooses r sub name code now free) i = record {
    groups = i.groups;
    joins = i.joins;
    creates = (((omega arith, refl), ([], refl)), i.creates);
  }
  Step-IsOrderly (inserts r before g after waits) i =
      let (fit, rest) = All-taken IsFit before g after (rw waits at i.creates) in
      let (groups, joins) = inserted-IsOrderly g r.joins r.collection _ refl fit i.groups i.joins in
      record { groups = groups; joins = joins; creates = rest }

  Reach-IsOrderly : {p q : Requests S} → Reach c p q → IsOrderly p → IsOrderly q
  Reach-IsOrderly here i = i
  Reach-IsOrderly (later r step) i = Step-IsOrderly step (Reach-IsOrderly r i)

  -- On a collection as the driver documents it: whatever requests to create and to join groups run at
  -- the same time, and wherever their reads and writes fall or fail, every group has at every moment
  -- at most 16 members, none of them twice, and its owner as the first of them, where all groups were so
  -- when no request was under way.
  pub Reach-IsFit :
      (s : S) (r : Requests S)
      → All IsFit (d.documents s)
      → Reach c (idle s) r
      → All IsFit (d.documents r.collection)
  Reach-IsFit s r all run =
      (Reach-IsOrderly run (record { groups = all; joins = tt; creates = tt })).groups
