-- ===== src/Db/Stored/Frame.antt =====
-- What is read of a set stays as it is where the tables grow by rows of new ids.
use essential_node.Types.{ContentAddress, Solution, SolutionSet}
use essential_node.Convert.{Convert}
use essential_node.Db.{SolutionSetRow, SolutionRow, MutationRow, PredDataRow, Database}
use essential_node.Db.Listing.Range.{All, All-append}
use essential_node.Db.Select.{All-imp, select-grows, find-grows, next_id-append}
use essential_node.Db.Statements.{find_set, find_solution}
use essential_node.Db.Stored.{next_set, next_solution}
use essential_node.Db.Stored.Read.{Reads, Holds}
use essential_node.Prelude.{
  ℕ, suc, ◌+◌, ◌≤◌, ◌≡◌, sym, ap, ◌∙◌, Bool, false, ◌&&◌, some, List, [], ◌∷◌, ◌++◌, append-nil,
  append_assoc, arith, ◌==◌, length, set, select, find, bytes_eq, bytes_eq,
}

-- the new table is the old one and more rows with the property
abbrev pub Grown : {A : Type 0} → List A → List A → (A → Type 0) → Type 0
Grown {A} old new P = (more : List A) × (new ≡ old ++ more) × All P more

Grown-trans :
    {A : Type 0} (xs ys zs : List A) (P Q : A → Type 0)
    → ((a : A) → Q a → P a)
    → Grown xs ys P
    → Grown ys zs Q
    → Grown xs zs P
Grown-trans xs ys zs P Q step (more, e, h) (more', e', h') = (
  more ++ more',
  e' ∙ ap (λ l. l ++ more') e ∙ append_assoc xs more more',
  All-append P more more' h (All-imp Q P more' step h'),
)

pub select-Grown :
    {A : Type 0} (p : A → Bool) (xs ys : List A) (P : A → Type 0)
    → ((a : A) → P a → p a ≡ false)
    → Grown xs ys P
    → select p ys ≡ select p xs
select-Grown p xs ys P other (more, e, h) =
    ap (select p) e ∙ select-grows p xs more (All-imp P (λ a. p a ≡ false) more other h)

pub find-Grown :
    {A : Type 0} (p : A → Bool) (xs ys : List A) (P : A → Type 0) {x : A}
    → Grown xs ys P
    → find p xs ≡ some x
    → find p ys ≡ some x
find-Grown p xs ys P (more, e, h) there = ap (find p) e ∙ find-grows p xs more there

-- the rows that are added have ids, and name rows, that were not there
pub record Grows (db db' : Database) : Type 0 where
  pub sets : Grown db.solution_set db'.solution_set (λ s. next_set db ≤ s.id)
  pub solutions : Grown db.solution db'.solution (λ r. next_set db ≤ r.solution_set_id)
  pub mutations : Grown db.mutation db'.mutation (λ m. next_solution db ≤ m.solution_id)
  pub datas : Grown db.pred_data db'.pred_data (λ d. next_solution db ≤ d.solution_id)

pub Grows-refl : (db : Database) → Grows db db
Grows-refl db = record {
  sets = ([], sym (append-nil db.solution_set), tt);
  solutions = ([], sym (append-nil db.solution), tt);
  mutations = ([], sym (append-nil db.mutation), tt);
  datas = ([], sym (append-nil db.pred_data), tt);
}

module _ (db db' : Database) (g : Grows db db') where
  pub next_set-Grows : next_set db ≤ next_set db'
  next_set-Grows =
      rw (g.sets.1) (next_id-append (λ (s : SolutionSetRow). s.id) db.solution_set g.sets.0)

  pub next_solution-Grows : next_solution db ≤ next_solution db'
  next_solution-Grows =
      rw (g.solutions.1) (next_id-append (λ (r : SolutionRow). r.id) db.solution g.solutions.0)

pub Grows-trans : (x y z : Database) → Grows x y → Grows y z → Grows x z
Grows-trans x y z g k =
    let one = next_set-Grows x y g in
    let two = next_solution-Grows x y g in
    record {
      sets =
          Grown-trans x.solution_set y.solution_set z.solution_set _ _ (λ s h. omega arith) g.sets
            k.sets;
      solutions =
          Grown-trans x.solution y.solution z.solution _ _ (λ s h. omega arith) g.solutions
            k.solutions;
      mutations =
          Grown-trans x.mutation y.mutation z.mutation _ _ (λ s h. omega arith) g.mutations
            k.mutations;
      datas =
          Grown-trans x.pred_data y.pred_data z.pred_data _ _ (λ s h. omega arith) g.datas k.datas;
    }

module _ (c : Convert) (db db' : Database) (g : Grows db db') where
  Reads-Grows :
      (set_id ix id : ℕ) (ss : List Solution)
      → id + length ss ≤ next_solution db
      → Reads c db set_id ix id ss
      → Reads c db' set_id ix id ss
  unfolding find_solution
  Reads-Grows set_id ix id [] h reads = tt
  Reads-Grows set_id ix id (s ∷ ss) h reads = (
    find-Grown (λ (r : SolutionRow). (r.solution_set_id == set_id) && (r.solution_index == ix))
        db.solution db'.solution (λ r. next_set db ≤ r.solution_set_id) g.solutions reads.0,
    select-Grown (λ (m : MutationRow). m.solution_id == id) db.mutation db'.mutation
          (λ m. next_solution db ≤ m.solution_id) (λ m k. ground (arith, h, k)) g.mutations
        ∙ reads.1,
    select-Grown (λ (d : PredDataRow). d.solution_id == id) db.pred_data db'.pred_data
          (λ m. next_solution db ≤ m.solution_id) (λ m k. ground (arith, h, k)) g.datas
        ∙ reads.2,
    Reads-Grows set_id (suc ix) (suc id) ss (omega arith) reads.3,
  )

  pub Holds-Grows :
      (ca : ContentAddress) (set_id : ℕ) (set : SolutionSet)
      → Holds c db ca set_id set
      → Holds c db' ca set_id set
  unfolding find_set
  Holds-Grows ca set_id set holds =
      let below = holds.below in
      record {
        found =
            find-Grown (λ (s : SolutionSetRow). bytes_eq s.content_addr ca) db.solution_set
              db'.solution_set (λ s. next_set db ≤ s.id) g.sets holds.found;
        by_id =
            find-Grown (λ (s : SolutionSetRow). s.id == set_id) db.solution_set db'.solution_set
              (λ s. next_set db ≤ s.id) g.sets holds.by_id;
        first = holds.first;
        solutions =
            select-Grown (λ (r : SolutionRow). r.solution_set_id == set_id) db.solution db'.solution
              (λ r. next_set db ≤ r.solution_set_id) (λ r k. ground (arith, below, k)) g.solutions
            ∙ holds.solutions;
        reads = Reads-Grows set_id 0 holds.first set.solutions holds.bounded holds.reads;
        below = omega (arith, below, next_set-Grows db db' g);
        bounded = omega (arith, holds.bounded, next_solution-Grows db db' g);
      }
