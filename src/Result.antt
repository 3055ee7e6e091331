-- ===== src/Result.antt =====
-- The exceptions of DuckDB that the code throws and tells apart, and code that may throw one.
-- The message of an exception is not modelled.
pub mod Exec
use unity_catalog.Base.{List, [], ◌∷◌, ◌≡◌, refl, ◌⊎◌, inl, inr}

pub data Exception : Type 0 where
  io invalid_input invalid_configuration not_implemented binder internal interrupt : Exception
  -- a `CatalogException`: with subtype ENTRY_ALREADY_EXISTS, or without
  entry_already_exists catalog_error : Exception
  -- any other `std::exception`
  std_exception : Exception

pub data Result {ℓ} (A : Type ℓ) : Type ℓ where
  ok : A → Result A
  err : Exception → Result A

-- A call that may throw, and what the code does with the value that it returns.
infixl 5 ◌>>=◌
abbrev pub ◌>>=◌ {ℓ κ} : {A : Type ℓ} {C : Type κ} → Result A → (A → Result C) → Result C
err thrown >>= next = err thrown
ok value >>= next = next value

-- A loop that fills a vector and may throw on the way.
unfoldable pub traverse {ℓ κ} :
    {A : Type ℓ} {B : Type κ} → (A → Result B) → List A → Result (List B)
traverse f [] = ok []
traverse f (x ∷ xs) = do y ← f x; ys ← traverse f xs; ok (y ∷ ys)

pub Result-cases {ℓ} :
    {A : Type ℓ} (r : Result A) → ((e : Exception) × (r ≡ err e)) ⊎ ((a : A) × (r ≡ ok a))
Result-cases (err e) = inl (e, refl)
Result-cases (ok a) = inr (a, refl)

-- What stands behind a successful chain.
pub >>=-eq-ok {ℓ κ} :
    {A : Type ℓ} {C : Type κ} (m : Result A) (f : A → Result C) {c : C}
    → (m >>= f) ≡ ok c
    → (a : A) × (m ≡ ok a) × (f a ≡ ok c)
>>=-eq-ok (ok a) f h = (a, refl, h)
>>=-eq-ok (err e) f h = cc

pub ok-injective {ℓ} : {A : Type ℓ} {a b : A} → ok a ≡ ok b → a ≡ b
ok-injective h = cc

pub err-injective {ℓ} : {A : Type ℓ} {d e : Exception} → ◌≡◌ {A = Result A} (err d) (err e) → d ≡ e
err-injective h = cc
