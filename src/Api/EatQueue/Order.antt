-- ===== src/Api/EatQueue/Order.antt =====
-- What the loop starts goroutines for, while nobody leaves.
use mathlib.Core.List.{append-nil, append_assoc}
use runner_io.Common.{
  ℕ, zero, ◌≡◌, refl, ap, sym, ◌∙◌, ◌<◌, List, [], ◌∷◌, ◌++◌, Option, some, length, length-append,
  arith, get_elem?,
}
use runner_io.Ws.GroupSlices.{Cells, Slice, Store, array_at}
use runner_io.Ws.GroupSlices.Cells.{filled}
use runner_io.Ws.GroupSlices.Refinement.{IsView}
use runner_io.Api.EatQueue.{
  Broadcast, on_delivery, begin, Step, start, wrote, failed, joins, leaves, Reach, here, later,
  IsDone,
}
use runner_io.Api.EatQueue.Joins.{Holds, IsBeyond, add_slice-IsBeyond}
use runner_io.Api.EatQueue.Runs.{get_elem?-filled}

-- No write fails, and no connection leaves the group; others may join it.
abbrev pub IsCalmStep : {spare : ℕ → ℕ} {b c : Broadcast} → Step spare b c → Type 0
IsCalmStep (start b c lt e) = Unit
IsCalmStep (wrote b xs c ys n r e) = Unit
IsCalmStep (failed b xs c ys n r e) = zero ≡ 1
IsCalmStep (joins b c) = Unit
IsCalmStep (leaves b c) = zero ≡ 1

abbrev pub IsCalm : {spare : ℕ → ℕ} {b c : Broadcast} → Reach spare b c → Type 0
IsCalm here = Unit
IsCalm (later r step) = IsCalm r × IsCalmStep step

-- The loop has started goroutines for the clients up to its index, in their order.
record IsOrdered (xs : List ℕ) (b : Broadcast) : Type 0 where
  store : IsBeyond xs b.array b.store
  total : b.total ≡ length xs
  ahead : List ℕ
  begun : xs ≡ b.started ++ ahead
  index : b.index ≡ length b.started

double_some : {x c : ℕ} → ◌≡◌ {A = Option (Option ℕ)} (some (some x)) (some (some c)) → x ≡ c
double_some e = cc

none_ahead :
    (xs started ahead : List ℕ) → xs ≡ started ++ ahead → length started ≡ length xs → started ≡ xs
none_ahead xs started [] e l = sym (e ∙ append-nil started)
none_ahead xs started (x ∷ ahead) e l =
    let never : 0 < 0 = omega (arith, l, ap length e, length-append started (x ∷ ahead)) in
    elim never [ ]

-- The client in the cell of the index is the first that is ahead.
next_client :
    (xs started ahead : List ℕ) (cells : Cells) (i c : ℕ)
    → Holds xs cells
    → xs ≡ started ++ ahead
    → i ≡ length started
    → i < length xs
    → get_elem? cells i ≡ some (some c)
    → (rest : List ℕ) × (xs ≡ (started ++ c ∷ []) ++ rest)
next_client xs started [] cells i c h e k lt g =
    let never : 0 < 0 = omega (arith, lt, k, ap length (e ∙ append-nil started)) in elim never [ ]
next_client xs started (x ∷ ahead) cells i c h e k lt g =
    let same : some (some x) ≡ some (some c) =
      sym (rw (h.1, e, k) (get_elem?-filled started x ahead h.0)) ∙ g in
    (
      ahead,
      e
          ∙ ap (λ y. started ++ y ∷ ahead) (double_some same)
          ∙ sym (append_assoc started (c ∷ []) ahead),
    )

module _ (spare : ℕ → ℕ) (xs : List ℕ) where
  Step-IsOrdered :
      {b c : Broadcast} (step : Step spare b c) → IsCalmStep step → IsOrdered xs b → IsOrdered xs c
  Step-IsOrdered (start b c lt e) calm s =
      let found =
        next_client xs b.started s.ahead _ b.index c s.store.cells s.begun s.index
          (omega (arith, lt, s.total)) e in
      record {
        store = s.store;
        total = s.total;
        ahead = found.0;
        begun = found.1;
        index = omega (arith, s.index, length-append b.started (c ∷ []));
      }
  Step-IsOrdered (wrote b before c after n r e) calm s = record {
    store = s.store;
    total = s.total;
    ahead = s.ahead;
    begun = s.begun;
    index = s.index;
  }
  Step-IsOrdered (failed b before c after n r e) calm s = cc
  Step-IsOrdered (joins b c) calm s = record {
    store = add_slice-IsBeyond spare c b.store xs b.array s.store;
    total = s.total;
    ahead = s.ahead;
    begun = s.begun;
    index = s.index;
  }
  Step-IsOrdered (leaves b c) calm s = cc

  Reach-IsOrdered :
      {b c : Broadcast} (r : Reach spare b c) → IsCalm r → IsOrdered xs b → IsOrdered xs c
  Reach-IsOrdered here calm s = s
  Reach-IsOrdered (later r step) calm s = Step-IsOrdered step calm.1 (Reach-IsOrdered r calm.0 s)

  pub broadcast-started :
      (arrays : List Cells) (a : ℕ) (rest : Cells) (b : Broadcast)
      → array_at arrays a ≡ filled xs rest
      → (r : Reach spare (begin arrays (record { array = a; len = length xs })) b) → IsCalm r
      → IsDone b
      → b.started ≡ xs
  broadcast-started arrays a rest b h r calm done =
      let s = Reach-IsOrdered r calm (record {
        store = record {
          cells = (rest, h);
          slice = record { array = a; len = length xs };
          entry = refl;
          beyond = λ same. omega arith;
        };
        total = refl;
        ahead = xs;
        begun = refl;
        index = refl;
      }) in
      none_ahead xs b.started s.ahead s.begun (omega (arith, s.index, s.total, done.0))

pub some_begin : {b c : Broadcast} → ◌≡◌ {A = Option Broadcast} (some b) (some c) → b ≡ c
some_begin e = cc

-- The view of an entry with clients, taken apart.
pub seen :
    (st : Store) (xs : List ℕ)
    → IsView st (some xs)
    → (a : ℕ) × (rest : Cells) × (st.entry ≡ some (record { array = a; len = length xs }))
      × (array_at st.arrays a ≡ filled xs rest)
unfolding IsView
seen st xs h = h

pub begun_broadcast :
    (st : Store) (s : Slice) (b : Broadcast)
    → st.entry ≡ some s
    → on_delivery st ≡ some b
    → begin st.arrays s ≡ b
unfolding on_delivery
begun_broadcast st s b e d = some_begin (rw e at d)
