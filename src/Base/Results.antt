-- ===== src/Base/Results.antt =====
-- Code that may raise: a value, or the error that is raised in its place.
use mathlib.Core.Path.{◌≡◌, refl}
use mathlib.Core.Logic.{◌⊎◌, inl, inr}
use mathlib.Core.List.{List, [], ◌∷◌}
use mathlib.Core.Bool.{Bool, true, false}

pub data Result {ℓ κ} (E : Type ℓ) (A : Type κ) : Type (ℓ ⊔ κ) where
  err : E → Result E A
  ok : A → Result E A

-- `if test: raise exception`
abbrev pub raise_if {ℓ} : {E : Type ℓ} → Bool → E → Result E (Unit {0})
raise_if false exception = ok tt
raise_if true exception = err exception

pub raise_if-eq-ok {ℓ} :
    {E : Type ℓ} (test : Bool) (exception : E) → raise_if test exception ≡ ok tt → test ≡ false
raise_if-eq-ok false exception returned = refl
raise_if-eq-ok true exception returned = cc

pub Result-cases {ℓ κ} :
    {E : Type ℓ} {A : Type κ} (outcome : Result E A)
    → ((a : A) × (outcome ≡ ok a)) ⊎ ((e : E) × (outcome ≡ err e))
Result-cases (err exception) = inr (exception, refl)
Result-cases (ok value) = inl (value, refl)

-- What is returned is the value.
pub ok-inj {ℓ κ} : {E : Type κ} {A : Type ℓ} {a b : A} → ◌≡◌ {A = Result E A} (ok a) (ok b) → b ≡ a
ok-inj h = cc

-- The statements of a body in their order: an exception ends it.
module _ {ℓ κ μ} {E : Type ℓ} {A : Type κ} {B : Type μ} where
  infixl 5 ◌>>=◌ ◌>>◌
  abbrev pub ◌>>=◌ : Result E A → (A → Result E B) → Result E B
  err exception >>= rest = err exception
  ok value >>= rest = rest value

  abbrev pub ◌>>◌ : Result E A → Result E B → Result E B
  first >> rest = first >>= λ _. rest

  -- A body that returns has a first statement that returned, and a rest that returned after it.
  pub >>=-eq-ok :
      (first : Result E A) (rest : A → Result E B) {b : B}
      → (first >>= rest) ≡ ok b
      → (a : A) × (first ≡ ok a) × (rest a ≡ ok b)
  >>=-eq-ok (err exception) rest returned = cc
  >>=-eq-ok (ok value) rest returned = (value, refl, returned)

-- A function on every item, until one raises.
unfoldable pub collect {ℓ κ μ} :
    {E : Type ℓ} {A : Type κ} {B : Type μ} → (A → Result E B) → List A → Result E (List B)
collect f [] = ok []
collect f (item ∷ rest) = f item >>= λ value. collect f rest >>= λ values. ok (value ∷ values)
