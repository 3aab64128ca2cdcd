-- ===== src/Prelude/Errors.antt =====
-- Fallible results, as Rust writes them.
use mathlib.Core.Path.{◌≡◌, refl, ap, ◌∙◌}
use mathlib.Core.Logic.{◌↔◌, ◌⊎◌, inl, inr}
use mathlib.Core.Bool.{Bool, true, false}
use mathlib.Core.List.{List, [], ◌∷◌, map}

-- Rust's `Result<T, E>`.
pub data Result {ℓ κ} (A : Type ℓ) (E : Type κ) : Type (ℓ ⊔ κ) where
  ok : A → Result A E
  err : E → Result A E

abbrev pub is_ok {ℓ κ} : {A : Type ℓ} {E : Type κ} → Result A E → Bool
is_ok (ok a) = true
is_ok (err e) = false

pub Result-cases {ℓ κ} :
    {A : Type ℓ} {E : Type κ} (r : Result A E) → ((a : A) × (r ≡ ok a)) ⊎ ((e : E) × (r ≡ err e))
Result-cases (ok a) = inl (a, refl)
Result-cases (err e) = inr (e, refl)

-- The `?` of Rust.
infixl 5 ◌>>=◌ ◌>>◌
abbrev pub ◌>>=◌ {ℓ κ μ} :
    {A : Type ℓ} {B : Type κ} {E : Type μ} → Result A E → (A → Result B E) → Result B E
ok a >>= f = f a
err e >>= f = err e

abbrev pub ◌>>◌ {κ μ} : {B : Type κ} {E : Type μ} → Result (Unit {0}) E → Result B E → Result B E
m >> k = m >>= λ _. k

abbrev pub map_err {ℓ κ μ} :
    {A : Type ℓ} {E : Type κ} {F : Type μ} → (E → F) → Result A E → Result A F
map_err f (ok a) = ok a
map_err f (err e) = err (f e)

-- `collect` of an iterator of results: the first error ends it.
abbrev pub collect {ℓ μ} : {A : Type ℓ} {E : Type μ} → List (Result A E) → Result (List A) E
collect [] = ok []
collect (ok a ∷ rest) = collect rest >>= λ rest_ok. ok (a ∷ rest_ok)
collect (err e ∷ rest) = err e

pub ok_inj {ℓ κ} : {A : Type ℓ} {E : Type κ} {a b : A} → ◌≡◌ {A = Result A E} (ok a) (ok b) → a ≡ b
ok_inj h = cc

pub ok≢err {ℓ κ} :
    {A : Type ℓ} {E : Type κ} {a : A} {e : E} → ¬ (◌≡◌ {A = Result A E} (err e) (ok a))
ok≢err h = cc

pub >>=-ok_iff {ℓ κ μ} :
    {A : Type ℓ} {B : Type κ} {E : Type μ} (m : Result A E) (f : A → Result B E) {b : B}
    → ((m >>= f) ≡ ok b) ↔ ((a : A) × ((m ≡ ok a) × (f a ≡ ok b)))
>>=-ok_iff (ok a) f = (λ h. (a, (refl, h)), λ found. ap f (ok_inj found.1.0) ∙ found.1.1)
>>=-ok_iff (err e) f = (λ h. absurd (ok≢err h), λ found. absurd (ok≢err found.1.0))

pub map_err-ok_iff {ℓ κ μ} :
    {A : Type ℓ} {E : Type κ} {F : Type μ} (f : E → F) (m : Result A E) {a : A}
    → (map_err f m ≡ ok a) ↔ (m ≡ ok a)
map_err-ok_iff f (ok a) = (λ h. ap ok (ok_inj h), λ h. ap ok (ok_inj h))
map_err-ok_iff f (err e) = (λ h. absurd (ok≢err h), λ h. absurd (ok≢err h))

pub collect-ok {ℓ μ} :
    {A : Type ℓ} {E : Type μ} (xs : List A) → collect {E = E} (map (λ (x : A). ok x) xs) ≡ ok xs
collect-ok [] = refl
collect-ok {E = E} (x ∷ xs) = rw (collect-ok {E = E} xs) refl
