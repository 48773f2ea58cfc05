-- ===== src/Api/Server/Tests.antt =====
-- A set of tasks that is a list of how they end, and a server over it.
use essential_node.Api.Server.{JoinSet, IsJoinSet, set_empty, serve}
use essential_node.Api.Server.Limit.{serve-at_most}
use essential_node.Prelude.{
  ℕ, zero, suc, ◌%◌, ◌≤◌, ◌≡◌, refl, none, some, [], ◌∷◌, ◌==◌, if◌then◌else◌, ok, err,
}

-- every third task panics
abbrev tasks : JoinSet
tasks = record {
  Set = ℕ;
  JoinError = ℕ;
  empty = 0;
  len = λ s. s;
  spawn = λ s. suc s;
  join_next = λ s. elim s [ zero ↦ none | suc n ↦ some (if n % 3 == 2 then err n else ok tt, n) ];
}

tasks_laws : IsJoinSet tasks
tasks_laws = record {
  len-empty = refl;
  len-spawn = λ s. refl;
  join_next-none = λ s h. rw h refl;
  join_next-some = λ s n h. (if n % 3 == 2 then err n else ok tt, n, rw h refl, refl);
}

serve-at_most_example :
    ((s : ℕ) × (serve tasks 2 (ok tt ∷ ok tt ∷ ok tt ∷ []) ≡ ok s) × (s ≤ 2))
    × (serve tasks 0 (ok tt ∷ ok tt ∷ ok tt ∷ ok tt ∷ []) ≡ err set_empty)
serve-at_most_example = serve-at_most tasks tasks_laws 1 (ok tt ∷ ok tt ∷ ok tt ∷ []) (ok tt)
