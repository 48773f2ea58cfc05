-- ===== src/Validate/Inner/Spec.antt =====
-- Which outcome a block gets.
use essential_node.Types.{Block, ContentAddress, SolutionSet}
use essential_node.Validate.Inner.{
  validate_inner, check_set, Source, Checker, Predicates, Convert, Engine, ValidationError,
  ValidateFailure, ValidateOutcome, SetResult, stopped, failed, used, valid, invalid, gas_overflow,
  gas_limit, total_loop,
}
use essential_node.Prelude.{
  ℕ, suc, ◌+◌, ◌≤◌, ◌<◌, ◌≡◌, refl, ◌⊎◌, inl, inr, List, [], ◌∷◌, ◌++◌, arith, length, Result, ok,
  err, ap, ◌∙◌, ltb, ltb→lt, Bool-cases, sym, subst, true, false, length-append,
}

abbrev pub sum : List ℕ → ℕ
sum [] = 0
sum (g ∷ gs) = g + sum gs

module _ (X : Type 0) (check : ℕ → SolutionSet → SetResult X) where
  -- each set, from index `ix` on, uses its gas of the list
  abbrev pub Uses : ℕ → List SolutionSet → List ℕ → Type 0
  Uses ix [] [] = Unit {0}
  Uses ix [] (g ∷ gs) = ⊥
  Uses ix (s ∷ ss) [] = ⊥
  Uses ix (s ∷ ss) (g ∷ gs) = (check ix s ≡ used g) × Uses (suc ix) ss gs

  SetResult-cases :
      (r : SetResult X)
      → ((e : ValidationError) × (r ≡ stopped e))
        ⊎ ((f : ValidateFailure X) × (r ≡ failed f))
        ⊎ ((g : ℕ) × (r ≡ used g))
  SetResult-cases (stopped e) = inl (e, refl)
  SetResult-cases (failed f) = inr (inl (f, refl))
  SetResult-cases (used g) = inr (inr (g, refl))

  -- what each outcome says of the sets from index `ix` on, after `total` gas
  abbrev pub Explains :
      ℕ → List SolutionSet → ℕ → Result ValidationError (ValidateOutcome X) → Type 0
  Explains ix sets total (ok (valid gas)) =
      (gs : List ℕ) × Uses ix sets gs × (gas ≡ total + sum gs) × (gas < gas_limit)
  Explains ix sets total (ok (invalid f i)) =
      (before : List SolutionSet) × (set : SolutionSet) × (after : List SolutionSet) × (gs : List ℕ)
      × (sets ≡ before ++ set ∷ after)
      × (i ≡ ix + length before)
      × Uses ix before gs
      × ((check i set ≡ failed f)
          ⊎ ((g : ℕ) × (check i set ≡ used g)
              × (f ≡ gas_overflow)
              × (gas_limit ≤ total + sum gs + g)))
  Explains ix sets total (err e) =
      (before : List SolutionSet) × (set : SolutionSet) × (after : List SolutionSet) × (gs : List ℕ)
      × (sets ≡ before ++ set ∷ after)
      × Uses ix before gs
      × (check (ix + length before) set ≡ stopped e)

  -- one more set in front of an explained outcome
  extend :
      (ix : ℕ) (set : SolutionSet) (sets : List SolutionSet) (total g : ℕ)
      → check ix set ≡ used g
      → (r : Result ValidationError (ValidateOutcome X)) → Explains (suc ix) sets (total + g) r
      → Explains ix (set ∷ sets) total r
  extend ix set sets total g u (ok (valid gas)) (gs, us, e, l) = (g ∷ gs, (u, us), omega arith, l)
  extend ix set sets total g u (ok (invalid f i)) (before, bad, after, gs, split, at, us, why) = (
    set ∷ before,
    bad,
    after,
    g ∷ gs,
    ap (◌∷◌ set) split,
    omega arith,
    (u, us),
    elim why [ inl h ↦ inl h | inr (g', h, o, large) ↦ inr (g', h, o, omega arith) ],
  )
  extend ix set sets total g u (err e) (before, bad, after, gs, split, us, why) = (
    set ∷ before,
    bad,
    after,
    g ∷ gs,
    ap (◌∷◌ set) split,
    (u, us),
    ap (λ n. check n bad) (omega arith) ∙ why,
  )

  module _ (ix : ℕ) (set : SolutionSet) (sets : List SolutionSet) (total : ℕ) where
    abbrev outcome : Result ValidationError (ValidateOutcome X)
    outcome = total_loop X check ix (set ∷ sets) total

    outcome-stopped : {e : ValidationError} → check ix set ≡ stopped e → outcome ≡ err e
    unfolding total_loop
    outcome-stopped r = rw (r, total_loop)

    outcome-failed : {f : ValidateFailure X} → check ix set ≡ failed f → outcome ≡ ok (invalid f ix)
    unfolding total_loop
    outcome-failed r = rw (r, total_loop)

    outcome-overflow :
        {g : ℕ}
        → check ix set ≡ used g
        → ltb (total + g) gas_limit ≡ false
        → outcome ≡ ok (invalid gas_overflow ix)
    unfolding total_loop
    outcome-overflow r large = ground arith

    outcome-used :
        {g : ℕ}
        → check ix set ≡ used g
        → ltb (total + g) gas_limit ≡ true
        → outcome ≡ total_loop X check (suc ix) sets (total + g)
    unfolding total_loop
    outcome-used r small = ground arith

  total_loop-Explains :
      (ix : ℕ) (sets : List SolutionSet) (total : ℕ)
      → total < gas_limit
      → Explains ix sets total (total_loop X check ix sets total)
  unfolding total_loop
  total_loop-Explains ix [] total h = ([], tt, omega arith, h)
  total_loop-Explains ix (set ∷ sets) total h = elim (SetResult-cases (check ix set)) [
    | inl (e, r) ↦
        explained (outcome-stopped ix set sets total r)
          ([], set, sets, [], refl, tt, ap (λ n. check n set) {x = ix + 0} (omega arith) ∙ r)
    | inr (inl (f, r)) ↦
        explained (outcome-failed ix set sets total r)
          ([], set, sets, [], refl, omega arith, tt, inl r)
    | inr (inr (g, r)) ↦ elim (Bool-cases (ltb (total + g) gas_limit)) [
      | inl small ↦ explained (outcome-used ix set sets total r small) (
          extend ix set sets total g r (total_loop X check (suc ix) sets (total + g))
            (total_loop-Explains (suc ix) sets (total + g) (ltb→lt _ _ small)))
      | inr large ↦
          explained (outcome-overflow ix set sets total r large)
            ([], set, sets, [], refl, omega arith, tt, inr (g, r, refl, ground arith))
    ]
  ]
    where
      explained :
          {r : Result ValidationError (ValidateOutcome X)}
          → total_loop X check ix (set ∷ sets) total ≡ r
          → Explains ix (set ∷ sets) total r
          → Explains ix (set ∷ sets) total (total_loop X check ix (set ∷ sets) total)
      explained e = subst (Explains ix (set ∷ sets) total) (sym e)

module _ (e : Engine) (c : Convert) (p : Predicates) (k : Checker p) (conn : Source)
    (contract_registry program_registry : ContentAddress) (block : Block) where
  -- what the check of one set of the block finds
  abbrev pub set_check : ℕ → SolutionSet → SetResult k.CheckError
  set_check = check_set e c p k conn contract_registry program_registry block.header.number

  -- A block is valid, with a total gas, where every one of its sets uses gas and the total is the sum
  -- and fits a `u64`. It is invalid at an index where the sets before use gas and the set at the index
  -- fails with the failure given, or uses gas with which the sum does not fit. The validation ends in
  -- an error where the sets before use gas and the check of the next one ends in this error.
  pub validate_inner-Explains :
      Explains k.CheckError set_check 0 block.solution_sets 0
        (validate_inner e c p k conn contract_registry program_registry block)
  unfolding validate_inner
  validate_inner-Explains =
      total_loop-Explains k.CheckError set_check 0 block.solution_sets 0 (omega arith)

  -- The index of an invalid outcome is that of a set of the block.
  pub validate_inner-invalid_lt :
      {f : ValidateFailure k.CheckError} {i : ℕ}
      → validate_inner e c p k conn contract_registry program_registry block ≡ ok (invalid f i)
      → i < length block.solution_sets
  validate_inner-invalid_lt {f} {i} h =
      let (before, bad, after, gs, split, at, us, why) =
        subst (Explains k.CheckError set_check 0 block.solution_sets 0) h validate_inner-Explains in
      omega (arith, ap length split, length-append before (bad ∷ after))
