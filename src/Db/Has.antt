-- ===== src/Db/Has.antt =====
-- Which rows are among those that a statement reads.
use essential_node.Db.{Engine}
use essential_node.Db.Sort.{insert_sorted, sort}
use essential_node.Prelude.{
  ◌≡◌, refl, sym, ap, subst, ◌∙◌, ◌↔◌, ◌⊎◌, inl, inr, Bool, true, some, List, [], ◌∷◌, map, arith,
  Bool-cases, select, exists, find, some-eq-some, head, ◌++◌, flat,
}

-- the element is in the list
abbrev pub Has : {A : Type 0} → A → List A → Type 0
Has x [] = ⊥
Has x (y ∷ ys) = (x ≡ y) ⊎ Has x ys

-- a scan yields the rows that are there
pub record IsScan (e : Engine) : Type 1 where
  pub same_rows : (A : Type 0) (xs : List A) (x : A) → Has x (e.scan A xs) ↔ Has x xs

pub Has-select :
    {A : Type 0} (p : A → Bool) (xs : List A) (x : A)
    → Has x (select p xs) ↔ (Has x xs × (p x ≡ true))
Has-select p [] x = (λ h. absurd h, λ h. h.0)
Has-select p (y ∷ ys) x = elim (Bool-cases (p y)) [
  | inl hit ↦ rw hit (
    λ h. elim h [
      | inl same ↦ (inl same, ap p same ∙ hit)
      | inr more ↦ let r = (Has-select p ys x).0 more in (inr r.0, r.1)
    ],
    λ h. elim h.0 [ inl same ↦ inl same | inr more ↦ inr ((Has-select p ys x).1 (more, h.1)) ],
  )
  | inr miss ↦ rw miss (
    λ h. let r = (Has-select p ys x).0 h in (inr r.0, r.1),
    λ h. elim h.0 [
      | inl same ↦ absurd (ground (arith, ap p same, miss, h.1))
      | inr more ↦ (Has-select p ys x).1 (more, h.1)
    ],
  )
]

pub find-Has :
    {A : Type 0} (p : A → Bool) (xs : List A) {x : A} → find p xs ≡ some x → Has x xs × (p x ≡ true)
find-Has p [] e = absurd cc
find-Has p (y ∷ ys) {x} e = elim (Bool-cases (p y)) [
  | inl hit ↦
      let same : x ≡ y = some-eq-some (sym (subst (λ o. o ≡ some x) (rw hit refl) e)) in
      (inl same, ap p same ∙ hit)
  | inr miss ↦
      let (there, passes) = find-Has p ys (subst (λ o. o ≡ some x) (rw miss refl) e) in
      (inr there, passes)
]

pub find-of_Has :
    {A : Type 0} (p : A → Bool) (xs : List A) (x : A)
    → Has x xs
    → p x ≡ true
    → (y : A) × (find p xs ≡ some y)
find-of_Has p [] x h e = absurd h
find-of_Has p (y ∷ ys) x h e = elim (Bool-cases (p y)) [
  | inl hit ↦ (y, rw hit refl)
  | inr miss ↦ elim h [
    | inl same ↦ absurd (let e' = ap p same in cc)
    | inr more ↦ let (z, found) = find-of_Has p ys x more e in (z, rw miss found)
  ]
]

pub exists-Has :
    {A : Type 0} (p : A → Bool) (xs : List A)
    → exists p xs ≡ true
    → (x : A) × Has x xs × (p x ≡ true)
exists-Has p [] e = absurd cc
exists-Has p (y ∷ ys) e = elim (Bool-cases (p y)) [
  | inl hit ↦ (y, inl refl, hit)
  | inr miss ↦
      let (x, there, passes) = exists-Has p ys (subst (λ b. b ≡ true) (rw miss refl) e) in
      (x, inr there, passes)
]

pub map-Has :
    {A B : Type 0} (f : A → B) (xs : List A) (b : B)
    → Has b (map f xs)
    → (x : A) × Has x xs × (b ≡ f x)
map-Has f [] b h = absurd h
map-Has f (x ∷ xs) b h = elim h [
  | inl same ↦ (x, inl refl, same)
  | inr more ↦ let (y, there, same) = map-Has f xs b more in (y, inr there, same)
]

pub Has-map : {A B : Type 0} (f : A → B) (xs : List A) (x : A) → Has x xs → Has (f x) (map f xs)
Has-map f [] x h = h
Has-map f (y ∷ ys) x h = elim h [
  | inl same ↦ inl (ap f same)
  | inr more ↦ inr (Has-map f ys x more)
]

pub Has-append_left : {A : Type 0} (xs ys : List A) (x : A) → Has x xs → Has x (xs ++ ys)
Has-append_left [] ys x h = absurd h
Has-append_left (z ∷ zs) ys x h = elim h [
  | inl same ↦ inl same
  | inr more ↦ inr (Has-append_left zs ys x more)
]

pub Has-append_right : {A : Type 0} (xs ys : List A) (x : A) → Has x ys → Has x (xs ++ ys)
Has-append_right [] ys x h = h
Has-append_right (z ∷ zs) ys x h = inr (Has-append_right zs ys x h)

pub Has-flat :
    {A B : Type 0} (f : A → List B) (xs : List A) (x : A) (y : B)
    → Has x xs
    → Has y (f x)
    → Has y (flat f xs)
Has-flat f [] x y h k = absurd h
Has-flat f (z ∷ zs) x y h k = elim h [
  | inl same ↦ Has-append_left (f z) (flat f zs) y (subst (λ x. Has y (f x)) same k)
  | inr more ↦ Has-append_right (f z) (flat f zs) y (Has-flat f zs x y more k)
]

Has-insert_sorted :
    {A : Type 0} (before : A → A → Bool) (y : A) (xs : List A) (x : A)
    → (x ≡ y) ⊎ Has x xs
    → Has x (insert_sorted before y xs)
Has-insert_sorted before y [] x h = h
Has-insert_sorted before y (z ∷ zs) x h = elim (Bool-cases (before z y)) [
  | inl hit ↦ rw hit (elim h [
    | inl same ↦ inr (Has-insert_sorted before y zs x (inl same))
    | inr there ↦ elim there [
      | inl same ↦ inl same
      | inr more ↦ inr (Has-insert_sorted before y zs x (inr more))
    ]
  ])
  | inr miss ↦ rw miss h
]

pub Has-sort :
    {A : Type 0} (before : A → A → Bool) (xs : List A) (x : A) → Has x xs → Has x (sort before xs)
Has-sort before [] x h = h
Has-sort before (y ∷ ys) x h =
    Has-insert_sorted before y (sort before ys) x
      (elim h [ inl same ↦ inl same | inr more ↦ inr (Has-sort before ys x more) ])

Has-append : {A : Type 0} (xs ys : List A) (x : A) → Has x (xs ++ ys) → Has x xs ⊎ Has x ys
Has-append [] ys x h = inr h
Has-append (z ∷ zs) ys x h = elim h [
  | inl same ↦ inl (inl same)
  | inr more ↦ elim (Has-append zs ys x more) [ inl here ↦ inl (inr here) | inr there ↦ inr there ]
]

pub flat-Has :
    {A B : Type 0} (f : A → List B) (xs : List A) (y : B)
    → Has y (flat f xs)
    → (x : A) × Has x xs × Has y (f x)
flat-Has f [] y h = absurd h
flat-Has f (x ∷ xs) y h = elim (Has-append (f x) (flat f xs) y h) [
  | inl here ↦ (x, inl refl, here)
  | inr there ↦ let (x', at, found) = flat-Has f xs y there in (x', inr at, found)
]

-- the first that passes of two lists, where one of the first list does
pub head-select :
    {A : Type 0} (p : A → Bool) (xs ys : List A) (x : A)
    → Has x xs
    → p x ≡ true
    → (y : A) × (head (select p (xs ++ ys)) ≡ some y) × Has y xs
head-select p [] ys x h e = absurd h
head-select p (z ∷ zs) ys x h e = elim (Bool-cases (p z)) [
  | inl hit ↦ (z, rw hit refl, inl refl)
  | inr miss ↦ elim h [
    | inl same ↦ absurd (let e' = ap p same in cc)
    | inr more ↦
        let (y, found, there) = head-select p zs ys x more e in (y, rw miss found, inr there)
  ]
]

pub exists-of_Has :
    {A : Type 0} (p : A → Bool) (xs : List A) (x : A) → Has x xs → p x ≡ true → exists p xs ≡ true
exists-of_Has p [] x h e = absurd h
exists-of_Has p (y ∷ ys) x h e = elim (Bool-cases (p y)) [
  | inl hit ↦ rw hit refl
  | inr miss ↦ elim h [
    | inl same ↦ absurd (let e' = ap p same in cc)
    | inr more ↦ rw miss (exists-of_Has p ys x more e)
  ]
]
