-- ===== src/Prelude/Outcome.antt =====
-- Rust's `Result`, with `?` as the bind of a `do` block.
use mathlib.Core.Path.{◌≡◌, refl}
use mathlib.Core.Logic.{◌⊎◌, inl, inr}
use mathlib.Core.Option.{Option, none, some}

pub data Result {ℓ} (E T : Type ℓ) : Type ℓ where
  ok : T → Result E T
  err : E → Result E T

abbrev pub ok_or {ℓ} : {E T : Type ℓ} → Option T → E → Result E T
ok_or (some x) failure = ok x
ok_or none failure = err failure

abbrev pub map_err {ℓ} : {E F T : Type ℓ} → (E → F) → Result E T → Result F T
map_err g (err failure) = err (g failure)
map_err g (ok x) = ok x

abbrev pub map_ok {ℓ} : {E T U : Type ℓ} → (T → U) → Result E T → Result E U
map_ok g (err failure) = err failure
map_ok g (ok x) = ok (g x)

infixl 5 ◌>>=◌
abbrev pub ◌>>=◌ {ℓ} : {E T U : Type ℓ} → Result E T → (T → Result E U) → Result E U
err failure >>= next = err failure
ok x >>= next = next x

-- a `?` whose value is not used
infixl 5 ◌>>◌
abbrev pub ◌>>◌ {ℓ} : {E T U : Type ℓ} → Result E T → Result E U → Result E U
first >> second = first >>= (λ x. second)

pub Result-cases {ℓ} :
    {E T : Type ℓ} (r : Result E T) → ((x : T) × (r ≡ ok x)) ⊎ ((failure : E) × (r ≡ err failure))
Result-cases (err failure) = inr (failure, refl)
Result-cases (ok x) = inl (x, refl)

-- A chain that ends well went through both of its calls.
pub >>=-eq-ok {ℓ} :
    {E T U : Type ℓ} (first : Result E T) (next : T → Result E U) {y : U}
    → first >>= next ≡ ok y
    → (x : T) × (first ≡ ok x) × (next x ≡ ok y)
>>=-eq-ok (err failure) next same = cc
>>=-eq-ok (ok x) next same = (x, refl, same)

pub map_err-eq-ok {ℓ} :
    {E F A : Type ℓ} (f : E → F) (r : Result E A) {a : A} → map_err f r ≡ ok a → r ≡ ok a
map_err-eq-ok f (ok a) h = cc
map_err-eq-ok f (err e) h = cc

pub ok_or-eq-ok {ℓ} : {E A : Type ℓ} (o : Option A) (e : E) {a : A} → ok_or o e ≡ ok a → o ≡ some a
ok_or-eq-ok none e h = cc
ok_or-eq-ok (some a) e h = cc

pub some-eq-some {ℓ} : {A : Type ℓ} {a b : A} → some a ≡ some b → a ≡ b
some-eq-some e = cc

pub ok-eq-ok {ℓ} : {E A : Type ℓ} {a b : A} → (let r : Result E A = ok a in r) ≡ ok b → a ≡ b
ok-eq-ok e = cc

pub err-eq-err {ℓ} : {E A : Type ℓ} {a b : E} → (let r : Result E A = err a in r) ≡ err b → a ≡ b
err-eq-err e = cc

pub map_err-eq-err {ℓ} :
    {E F A : Type ℓ} (f : E → F) (r : Result E A) {e : F}
    → map_err f r ≡ err e
    → (e' : E) × (r ≡ err e')
map_err-eq-err f (ok a) h = cc
map_err-eq-err f (err e') h = (e', refl)
