-- ===== src/Prelude/Sort.antt =====
-- ORDER BY a column DESC: the first row is the newest.
use Prim.Native.Nat.{ℕ, suc, ◌≤◌}
use mathlib.Core.Path.{◌≡◌, refl}
use mathlib.Core.Logic.{inl, inr}
use mathlib.Core.Bool.{true, false}
use mathlib.Core.List.{List, [], ◌∷◌}
use native.Mathlib.Omega.{arith}
use package.guff_suff.Prelude.Tests.{leb, if◌then◌else◌, Bool-cases}
use package.guff_suff.Prelude.Rows.{All, All-imp, length}

module _ {ℓ} {A : Type ℓ} (key : A → ℕ) where
  unfoldable pub insert_desc : A → List A → List A
  insert_desc x [] = x ∷ []
  insert_desc x (y ∷ ys) = if leb (key y) (key x) then x ∷ y ∷ ys else y ∷ insert_desc x ys

  unfoldable pub sort_desc : List A → List A
  unfolding insert_desc
  sort_desc [] = []
  sort_desc (x ∷ xs) = insert_desc x (sort_desc xs)

  length-insert_desc : (x : A) (ys : List A) → length (insert_desc x ys) ≡ suc (length ys)
  unfolding insert_desc
  length-insert_desc x [] = refl
  length-insert_desc x (y ∷ ys) = ground (arith, length-insert_desc x ys)

  pub length-sort_desc : (xs : List A) → length (sort_desc xs) ≡ length xs
  unfolding sort_desc
  length-sort_desc [] = refl
  length-sort_desc (x ∷ xs) =
      omega (arith, length-insert_desc x (sort_desc xs), length-sort_desc xs)

  All-insert_desc {κ} :
      (P : A → Type κ) (x : A) (ys : List A) → P x → All P ys → All P (insert_desc x ys)
  unfolding insert_desc
  All-insert_desc P x [] p a = (p, tt)
  All-insert_desc P x (y ∷ ys) p a =
      elim (leb (key y) (key x)) as (λ b. All P (if b then x ∷ y ∷ ys else y ∷ insert_desc x ys)) [
        | true ↦ (p, a)
        | false ↦ (a.0, All-insert_desc P x ys p a.1)
      ]

  pub All-sort_desc {κ} : (P : A → Type κ) (xs : List A) → All P xs → All P (sort_desc xs)
  unfolding sort_desc
  All-sort_desc P [] a = tt
  All-sort_desc P (x ∷ xs) a = All-insert_desc P x (sort_desc xs) a.0 (All-sort_desc P xs a.1)

  All-insert_desc_inv {κ} :
      (P : A → Type κ) (x : A) (ys : List A) → All P (insert_desc x ys) → P x × All P ys
  unfolding insert_desc
  All-insert_desc_inv P x [] a = (a.0, tt)
  All-insert_desc_inv P x (y ∷ ys) a = elim (Bool-cases (leb (key y) (key x))) [
    | inl e ↦ (rw e at a)
    | inr e ↦
        let b : P y × All P (insert_desc x ys) = rw e at a in
        let c = All-insert_desc_inv P x ys b.1 in (c.0, (b.0, c.1))
  ]

  pub All-sort_desc_inv {κ} : (P : A → Type κ) (xs : List A) → All P (sort_desc xs) → All P xs
  unfolding sort_desc
  All-sort_desc_inv P [] a = tt
  All-sort_desc_inv P (x ∷ xs) a =
      let b = All-insert_desc_inv P x (sort_desc xs) a in (b.0, All-sort_desc_inv P xs b.1)

  -- No row has a greater key than the first.
  abbrev pub LeadsByKey : List A → Type 0
  LeadsByKey [] = Unit
  LeadsByKey (x ∷ xs) = All (λ y. key y ≤ key x) xs

  insert_desc-LeadsByKey : (x : A) (ys : List A) → LeadsByKey ys → LeadsByKey (insert_desc x ys)
  unfolding insert_desc
  insert_desc-LeadsByKey x [] a = tt
  insert_desc-LeadsByKey x (y ∷ ys) a = elim (Bool-cases (leb (key y) (key x))) [
    | inl e ↦ rw e (
      ground arith,
      All-imp (λ z. key z ≤ key x) {Q = λ z. key z ≤ key y} (λ z h. ground arith) ys a,
    )
    | inr e ↦ rw e (All-insert_desc (λ z. key z ≤ key y) x ys (ground arith) a)
  ]

  pub sort_desc-LeadsByKey : (xs : List A) → LeadsByKey (sort_desc xs)
  unfolding sort_desc
  sort_desc-LeadsByKey [] = tt
  sort_desc-LeadsByKey (x ∷ xs) = insert_desc-LeadsByKey x (sort_desc xs) (sort_desc-LeadsByKey xs)
