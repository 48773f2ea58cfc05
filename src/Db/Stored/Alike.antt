-- ===== src/Db/Stored/Alike.antt =====
-- Solution sets that differ at most in the order of the mutations and of the predicate data of a solution,
-- which get_solution_mutations.sql and get_solution_pred_data.sql leave open.
use mathlib.Core.List.{Perm}
use essential_node.Types.{Solution, SolutionSet}
use essential_node.Prelude.{◌≡◌, List, [], ◌∷◌}

abbrev pub AlikeSolution : Solution → Solution → Type 0
AlikeSolution s t =
    (s.predicate_to_solve ≡ t.predicate_to_solve)
    × Perm s.predicate_data t.predicate_data
    × Perm s.state_mutations t.state_mutations

abbrev pub AlikeSolutions : List Solution → List Solution → Type 0
AlikeSolutions [] [] = Unit {0}
AlikeSolutions (s ∷ ss) (t ∷ ts) = AlikeSolution s t × AlikeSolutions ss ts
AlikeSolutions _ _ = ⊥

-- the same number of sets, and in each the solutions in their order
abbrev pub AlikeSets : List SolutionSet → List SolutionSet → Type 0
AlikeSets [] [] = Unit {0}
AlikeSets (s ∷ ss) (t ∷ ts) = AlikeSolutions s.solutions t.solutions × AlikeSets ss ts
AlikeSets _ _ = ⊥
