-- ===== src/Services/LiveLines/Grouping.antt =====
-- `segregatePointsByUser`: the entry of a user holds the user's lines, in order of time.
use mathlib.Core.Bool.{not}
use mathlib.Core.List.{append_assoc, append-nil}
use runner_io.Common.{
  ◌≡◌, refl, sym, ap, ◌∙◌, List, [], ◌∷◌, ◌++◌, String, str_eq, eq_iff, if◌then◌else◌, arith,
  Bool-cases, inl, inr, delete_func, All, false,
}
use runner_io.Common.Map.{Map, lookup, insert, lookup-insert}
use runner_io.Common.Sort.{sort_func, sort_func-perm, less, Ascending, sort_func-Ascending}
use runner_io.Common.Int.{◌≤ℤ◌}
use mathlib.Core.List.{Perm}
use runner_io.Services.LiveLines.Production.{compare_oldest-IsWeakOrder}
use runner_io.Dto.Schema.{LiveLinesData}
use runner_io.Services.LiveLines.{
  compare_oldest, lines_of, group_lines, sort_entries, segregate_points_by_user,
}

module _ {ℓ} {F : Type ℓ} where
  -- The lines that a user sent, in the order of the input.
  abbrev pub sent_by : String → List (LiveLinesData F) → List (LiveLinesData F)
  sent_by s lines = delete_func lines λ l. not (str_eq l.sender s)

  lines_of-insert :
      (k s : String) (v : List (LiveLinesData F)) (m : Map (List (LiveLinesData F)))
      → lines_of s (insert k v m) ≡ (if str_eq k s then v else lines_of s m)
  lines_of-insert k s v m = ground (arith, lookup-insert k s v m)

  lines_of-group_lines :
      (s : String) (m : Map (List (LiveLinesData F))) (lines : List (LiveLinesData F))
      → lines_of s (group_lines m lines) ≡ lines_of s m ++ sent_by s lines
  unfolding group_lines delete_func
  lines_of-group_lines s m [] = sym (append-nil (lines_of s m))
  lines_of-group_lines s m (l ∷ lines) =
      let joined = lines_of l.sender m ++ l ∷ [] in
      lines_of-group_lines s (insert l.sender joined m) lines
      ∙ elim (Bool-cases (str_eq l.sender s)) [
        | inl same ↦
            rw (lines_of-insert l.sender s joined m, same)
              (append_assoc (lines_of l.sender m) (l ∷ []) (sent_by s lines)
                ∙ ap (λ k. lines_of k m ++ l ∷ sent_by s lines) ((eq_iff l.sender s).0 same))
        | inr other ↦ rw (lines_of-insert l.sender s joined m, other)
      ]

  lines_of-sort_entries :
      (s : String) (m : Map (List (LiveLinesData F)))
      → lines_of s (sort_entries m) ≡ sort_func compare_oldest (lines_of s m)
  unfolding sort_entries lookup sort_func
  lines_of-sort_entries s [] = refl
  lines_of-sort_entries s ((k, lines) ∷ m) = elim (Bool-cases (str_eq k s)) [
    | inl same ↦ rw same refl
    | inr other ↦ rw other (lines_of-sort_entries s m)
  ]

  -- No line has a time before that of a line in front of it.
  abbrev pub AreOldestFirst : List (LiveLinesData F) → Type 0
  AreOldestFirst [] = Unit
  AreOldestFirst (l ∷ lines) = All (λ m. l.time ≤ℤ m.time) lines × AreOldestFirst lines

  oldest_le :
      (l : LiveLinesData F) (lines : List (LiveLinesData F))
      → All (λ m. less compare_oldest m l ≡ false) lines
      → All (λ m. l.time ≤ℤ m.time) lines
  oldest_le l [] h = tt
  oldest_le l (m ∷ lines) h = (ground arith, oldest_le l lines h.1)

  Ascending-AreOldestFirst :
      (lines : List (LiveLinesData F)) → Ascending compare_oldest lines → AreOldestFirst lines
  Ascending-AreOldestFirst [] a = tt
  Ascending-AreOldestFirst (l ∷ lines) a =
      (oldest_le l lines a.0, Ascending-AreOldestFirst lines a.1)

  -- The entry of a user holds the lines that the user sent, each as often as it was sent and no other, and in
  -- it no line has a time before that of a line in front of it; a user who sent none has no entry or
  -- an empty one.
  pub segregate_points_by_user_lem :
      (s : String) (lines : List (LiveLinesData F))
      → Perm (lines_of s (segregate_points_by_user lines)) (sent_by s lines)
        × AreOldestFirst (lines_of s (segregate_points_by_user lines))
  unfolding segregate_points_by_user
  segregate_points_by_user_lem s lines =
      let sorted =
        lines_of-sort_entries s (group_lines [] lines)
        ∙ ap (sort_func compare_oldest) (lines_of-group_lines s [] lines) in
      (
        rw sorted (sort_func-perm compare_oldest (sent_by s lines)),
        rw sorted (
            Ascending-AreOldestFirst _
              (sort_func-Ascending compare_oldest compare_oldest-IsWeakOrder (sent_by s lines))),
      )
