-- ===== src/Prelude/Rows.antt =====
-- A table is a list of rows. The statements of SQL that the program sends, over Boolean conditions,
-- with their laws. No statement of the program depends on the order of rows in a table.
use Prim.Native.Nat.{ℕ, zero, suc, ◌≤◌}
use mathlib.Core.Path.{◌≡◌, refl, ap}
use mathlib.Core.Logic.{inl, inr}
use mathlib.Core.Bool.{Bool, true, false, ◌&&◌, ◌||◌}
use mathlib.Core.List.{List, [], ◌∷◌, ◌++◌, map}
use native.Mathlib.Omega.{arith}
use package.guff_suff.Prelude.Tests.{if◌then◌else◌, Bool-cases}

-- Any row will do.
abbrev pub Anything {ℓ} : {A : Type ℓ} → A → Type 0
Anything x = Unit

-- Every row satisfies `P`.
abbrev pub All {ℓ κ} : {A : Type ℓ} → (A → Type κ) → List A → Type κ
All P [] = Unit
All P (x ∷ xs) = P x × All P xs

module _ {ℓ} {A : Type ℓ} where
  abbrev pub length : List A → ℕ
  length [] = 0
  length (x ∷ xs) = suc (length xs)

  -- LIMIT n
  abbrev pub take : ℕ → List A → List A
  take zero xs = []
  take (suc n) [] = []
  take (suc n) (x ∷ xs) = x ∷ take n xs

  -- EXISTS (SELECT ... WHERE p)
  unfoldable pub any : (A → Bool) → List A → Bool
  any p [] = false
  any p (x ∷ xs) = p x || any p xs

  -- SELECT ... WHERE p
  unfoldable pub select : (A → Bool) → List A → List A
  select p [] = []
  select p (x ∷ xs) = let rest = select p xs in if p x then x ∷ rest else rest

  -- UPDATE ... SET f WHERE p
  unfoldable pub update : (A → Bool) → (A → A) → List A → List A
  update p f [] = []
  update p f (x ∷ xs) = (if p x then f x else x) ∷ update p f xs

  -- DELETE ... WHERE p
  unfoldable pub remove : (A → Bool) → List A → List A
  remove p [] = []
  remove p (x ∷ xs) = let rest = remove p xs in if p x then rest else x ∷ rest

-- ... JOIN ... ON p
unfoldable pub join {ℓ κ} :
    {A : Type ℓ} {B : Type κ} → (A → B → Bool) → List A → List B → List (A × B)
unfolding select
join on [] ys = []
join on (x ∷ xs) ys = map (λ y. (x, y)) (select (on x) ys) ++ join on xs ys

pub All-Anything {ℓ} : {A : Type ℓ} (xs : List A) → All Anything xs
All-Anything [] = tt
All-Anything (x ∷ xs) = (tt, All-Anything xs)

module _ {ℓ κ} {A : Type ℓ} (P : A → Type κ) where
  pub All-intro : ((x : A) → P x) → (xs : List A) → All P xs
  All-intro h [] = tt
  All-intro h (x ∷ xs) = (h x, All-intro h xs)

  pub All-imp {μ} : {Q : A → Type μ} → ((x : A) → Q x → P x) → (xs : List A) → All Q xs → All P xs
  All-imp h [] a = tt
  All-imp h (x ∷ xs) a = (h x a.0, All-imp h xs a.1)

  pub All-append : (xs ys : List A) → All P xs → All P ys → All P (xs ++ ys)
  All-append [] ys a b = b
  All-append (x ∷ xs) ys a b = (a.0, All-append xs ys a.1 b)

  pub All-select : (p : A → Bool) (xs : List A) → All P xs → All P (select p xs)
  unfolding select
  All-select p [] a = tt
  All-select p (x ∷ xs) a = elim (Bool-cases (p x)) [
    | inl e ↦ rw e (a.0, All-select p xs a.1)
    | inr e ↦ rw e (All-select p xs a.1)
  ]

  pub All-select_inv :
      (p : A → Bool) (xs : List A) → All P (select p xs) → All (λ x. p x ≡ true → P x) xs
  unfolding select
  All-select_inv p [] a = tt
  All-select_inv p (x ∷ xs) a = elim (Bool-cases (p x)) [
    | inl e ↦ let b : P x × All P (select p xs) = rw e at a in (λ _. b.0, All-select_inv p xs b.1)
    | inr e ↦ (λ h. cc, All-select_inv p xs (rw e at a))
  ]

  -- An update keeps a property that `f` keeps on the rows it changes.
  pub All-update :
      (p : A → Bool) (f : A → A)
      → ((x : A) → p x ≡ true → P x → P (f x))
      → (xs : List A) → All P xs
      → All P (update p f xs)
  unfolding update
  All-update p f h [] a = tt
  All-update p f h (x ∷ xs) a = elim (Bool-cases (p x)) [
    | inl e ↦ rw e (h x e a.0, All-update p f h xs a.1)
    | inr e ↦ rw e (a.0, All-update p f h xs a.1)
  ]

  pub All-update_from {μ} :
      {Q : A → Type μ} (p : A → Bool) (f : A → A)
      → ((x : A) → p x ≡ true → Q x → P (f x))
      → ((x : A) → p x ≡ false → Q x → P x)
      → (xs : List A) → All Q xs
      → All P (update p f xs)
  unfolding update
  All-update_from p f h k [] a = tt
  All-update_from {Q = Q} p f h k (x ∷ xs) a = elim (Bool-cases (p x)) [
    | inl e ↦ rw e (h x e a.0, All-update_from {Q = Q} p f h k xs a.1)
    | inr e ↦ rw e (k x e a.0, All-update_from {Q = Q} p f h k xs a.1)
  ]

  -- An update establishes a property that the rows it leaves alone have.
  pub All-update_intro :
      (p : A → Bool) (f : A → A)
      → ((x : A) → p x ≡ true → P (f x))
      → ((x : A) → p x ≡ false → P x)
      → (xs : List A) → All P (update p f xs)
  unfolding update
  All-update_intro p f h k [] = tt
  All-update_intro p f h k (x ∷ xs) = elim (Bool-cases (p x)) [
    | inl e ↦ rw e (h x e, All-update_intro p f h k xs)
    | inr e ↦ rw e (k x e, All-update_intro p f h k xs)
  ]

module _ {ℓ} {A : Type ℓ} where
  pub select-All : (p : A → Bool) (xs : List A) → All (λ x. p x ≡ true) (select p xs)
  unfolding select
  select-All p [] = tt
  select-All p (x ∷ xs) = elim (Bool-cases (p x)) [
    | inl e ↦ rw e (e, select-All p xs)
    | inr e ↦ rw e (select-All p xs)
  ]

  pub select-eq_nil : (p : A → Bool) (xs : List A) → any p xs ≡ false → select p xs ≡ []
  unfolding select any
  select-eq_nil p [] h = refl
  select-eq_nil p (x ∷ xs) h = ground (arith, select-eq_nil p xs)

  pub All-any-false : (p : A → Bool) (xs : List A) → any p xs ≡ false → All (λ x. p x ≡ false) xs
  unfolding any
  All-any-false p [] h = tt
  All-any-false p (x ∷ xs) h = (ground arith, All-any-false p xs (ground arith))

  -- A condition on columns that the update does not set.
  pub any-update :
      (q p : A → Bool) (f : A → A)
      → ((x : A) → q (f x) ≡ q x)
      → (xs : List A) → any q (update p f xs) ≡ any q xs
  unfolding any update
  any-update q p f h [] = refl
  any-update q p f h (x ∷ xs) = ground (arith, h x, any-update q p f h xs)

  pub select-update :
      (q p : A → Bool) (f : A → A)
      → ((x : A) → q (f x) ≡ q x)
      → (xs : List A) → select q (update p f xs) ≡ update p f (select q xs)
  unfolding select update
  select-update q p f h [] = refl
  select-update q p f h (x ∷ xs) = ground (arith, h x, select-update q p f h xs)

  pub length-update : (p : A → Bool) (f : A → A) (xs : List A) → length (update p f xs) ≡ length xs
  unfolding update
  length-update p f [] = refl
  length-update p f (x ∷ xs) = ap suc (length-update p f xs)

  pub length-select-le : (p : A → Bool) (xs : List A) → length (select p xs) ≤ length xs
  unfolding select
  length-select-le p [] = omega arith
  length-select-le p (x ∷ xs) = ground (arith, length-select-le p xs)

module _ {ℓ κ μ} {A : Type ℓ} {B : Type κ} (P : A × B → Type μ) where
  All-pairs : (x : A) (ys : List B) → All (λ y. P (x, y)) ys → All P (map (λ y. (x, y)) ys)
  All-pairs x [] a = tt
  All-pairs x (y ∷ ys) a = (a.0, All-pairs x ys a.1)

  -- Every joined pair has what holds of its two rows and of the condition.
  pub All-join {ν ξ} :
      (Q : A → Type ν) (R : B → Type ξ) (on : A → B → Bool)
      → ((x : A) (y : B) → on x y ≡ true → Q x → R y → P (x, y))
      → (xs : List A) (ys : List B) → All Q xs
      → All R ys
      → All P (join on xs ys)
  unfolding join
  All-join Q R on h [] ys a b = tt
  All-join Q R on h (x ∷ xs) ys a b =
      All-append P _ _ (All-pairs x _ (matching ys b)) (All-join Q R on h xs ys a.1 b)
    where
      matching : (zs : List B) → All R zs → All (λ y. P (x, y)) (select (on x) zs)
      matching [] c = tt
      matching (z ∷ zs) c = elim (Bool-cases (on x z)) [
        | inl e ↦ rw e (h x z e a.0 c.0, matching zs c.1)
        | inr e ↦ rw e (matching zs c.1)
      ]

module _ {ℓ} {A : Type ℓ} where
  pub any-select_cons :
      (p : A → Bool) (xs : List A) {r : A} {rs : List A} → select p xs ≡ r ∷ rs → any p xs ≡ true
  unfolding any select
  any-select_cons p [] e = cc
  any-select_cons p (x ∷ xs) {r} {rs} e = elim (Bool-cases (p x)) [
    | inl yes' ↦ ground arith
    | inr no' ↦ rw no' (any-select_cons p xs (rw no' at e))
  ]

  pub select_of_any :
      (p : A → Bool) (xs : List A)
      → any p xs ≡ true
      → (r : A) × (rs : List A) × (select p xs ≡ r ∷ rs)
  unfolding any select
  select_of_any p [] e = cc
  select_of_any p (x ∷ xs) e = elim (Bool-cases (p x)) [
    | inl yes' ↦ (x, select p xs, rw yes')
    | inr no' ↦ rw no' (select_of_any p xs (rw no' at e))
  ]

  pub any-imp :
      (p q : A → Bool)
      → ((x : A) → p x ≡ true → q x ≡ true)
      → (xs : List A) → any p xs ≡ true
      → any q xs ≡ true
  unfolding any
  any-imp p q h [] e = e
  any-imp p q h (x ∷ xs) e = ground (arith, h x, any-imp p q h xs)

  pub any-append : (p : A → Bool) (xs ys : List A) → any p (xs ++ ys) ≡ (any p xs || any p ys)
  unfolding any
  any-append p [] ys = refl
  any-append p (x ∷ xs) ys = ground (arith, any-append p xs ys)

pub any-pairs {ℓ κ} :
    {A : Type ℓ} {B : Type κ} (p : A × B → Bool) (q : B → Bool) (x : A) (ys : List B)
    → any p (map (λ y. (x, y)) (select q ys)) ≡ any (λ y. q y && p (x, y)) ys
unfolding any select
any-pairs p q x [] = refl
any-pairs p q x (y ∷ ys) = elim (Bool-cases (q y)) [
  | inl e ↦ rw e (ap (◌||◌ (p (x, y))) (any-pairs p q x ys))
  | inr e ↦ rw e (any-pairs p q x ys)
]

module _ {ℓ κ μ} {A : Type ℓ} {B : Type κ} (P : A → B → Type μ) where
  push :
      (y : B) (xs : List A) (ys : List B)
      → All (λ x. P x y) xs
      → All (λ x. All (P x) ys) xs
      → All (λ x. All (P x) (y ∷ ys)) xs
  push y [] ys a b = tt
  push y (x ∷ xs) ys a b = ((a.0, b.0), push y xs ys a.1 b.1)

  nothing : (xs : List A) → All (λ x. All (P x) []) xs
  nothing [] = tt
  nothing (x ∷ xs) = (tt, nothing xs)

  pub All-swap :
      (xs : List A) (ys : List B) → All (λ y. All (λ x. P x y) xs) ys → All (λ x. All (P x) ys) xs
  All-swap xs [] a = nothing xs
  All-swap xs (y ∷ ys) a = push y xs ys a.0 (All-swap xs ys a.1)

module _ {ℓ κ μ} {A : Type ℓ} {B : Type κ} (P : A × B → Type μ) (on : A → B → Bool) where
  joined_with :
      (x : A) (ys : List B)
      → All (λ y. on x y ≡ true → P (x, y)) ys
      → All P (map (λ y. (x, y)) (select (on x) ys))
  unfolding select
  joined_with x [] a = tt
  joined_with x (y ∷ ys) a = elim (Bool-cases (on x y)) [
    | inl e ↦ rw e (a.0 e, joined_with x ys a.1)
    | inr e ↦ rw e (joined_with x ys a.1)
  ]

  pub All-join_each :
      (xs : List A) (ys : List B)
      → All (λ x. All (λ y. on x y ≡ true → P (x, y)) ys) xs
      → All P (join on xs ys)
  unfolding join
  All-join_each [] ys a = tt
  All-join_each (x ∷ xs) ys a = All-append P _ _ (joined_with x ys a.0) (All-join_each xs ys a.1)

-- The first pair of a join is that of the first row, if it has a partner.
pub join-cons {ℓ κ} :
    {A : Type ℓ} {B : Type κ} (on : A → B → Bool) (xs : List A) (ys : List B) {x : A} {xs' : List A}
    {y : B} {ys' : List B}
    → xs ≡ x ∷ xs'
    → select (on x) ys ≡ y ∷ ys'
    → join on xs ys ≡ (x, y) ∷ (map (λ z. (x, z)) ys' ++ join on xs' ys)
unfolding join
join-cons on xs ys p q = rw p (rw q)
