-- ===== src/Prelude/Keys.antt =====
-- Keys of a table: rows that are distinct under a test, and what follows for UPDATE ... WHERE key.
use mathlib.Core.Path.{◌≡◌, refl, sym, subst, fun_ext}
use mathlib.Core.Logic.{◌⊎◌, inl, inr}
use mathlib.Core.Bool.{Bool, true, false, ◌&&◌}
use mathlib.Core.List.{List, [], ◌∷◌}
use native.Mathlib.Omega.{arith}
use package.guff_suff.Prelude.Tests.{if◌then◌else◌}
use package.guff_suff.Prelude.Rows.{
  All, All-imp, All-any-false, Anything, All-Anything, All-select, select-All, All-join, any,
  select, update, join, any-update,
}

module _ {A : Type 0} where
  -- `x` is a row.
  abbrev pub In : A → List A → Type 0
  In x [] = ⊥
  In x (y ∷ ys) = (x ≡ y) ⊎ In x ys

  -- No row has the key of an earlier one.
  abbrev pub Distinct : (A → A → Bool) → List A → Type 0
  Distinct same [] = Unit
  Distinct same (x ∷ xs) = (any (λ y. same y x) xs ≡ false) × Distinct same xs

  pub All-In : (xs ys : List A) → ((x : A) → In x xs → In x ys) → All (λ x. In x ys) xs
  All-In [] ys h = tt
  All-In (x ∷ xs) ys h = (h x (inl refl), All-In xs ys (λ y i. h y (inr i)))

  pub All-In_elim {ℓ} : (P : A → Type ℓ) (xs : List A) {x : A} → All P xs → In x xs → P x
  All-In_elim P [] a i = absurd i
  All-In_elim P (y ∷ ys) {x} a (inl e) = subst P (sym e) a.0
  All-In_elim P (y ∷ ys) a (inr i) = All-In_elim P ys a.1 i

  pub All-and {ℓ κ} :
      (P : A → Type ℓ) (Q : A → Type κ) (xs : List A)
      → All P xs
      → All Q xs
      → All (λ x. P x × Q x) xs
  All-and P Q [] a b = tt
  All-and P Q (x ∷ xs) a b = ((a.0, b.0), All-and P Q xs a.1 b.1)

  pub select-In : (p : A → Bool) (xs : List A) → All (λ x. In x xs) (select p xs)
  select-In p xs = All-select (λ x. In x xs) p xs (All-In xs xs (λ x i. i))

  -- The rows of a query are rows of the table that meet its condition.
  pub select_sound : (p : A → Bool) (xs : List A) → All (λ x. In x xs × (p x ≡ true)) (select p xs)
  select_sound p xs =
      All-and (λ x. In x xs) (λ x. p x ≡ true) (select p xs) (select-In p xs) (select-All p xs)

  -- A row is the only one with its key.
  pub Distinct-only :
      (same : A → A → Bool)
      → ((x y : A) → same x y ≡ same y x)
      → (xs : List A) (x : A) → Distinct same xs
      → In x xs
      → All (λ y. same y x ≡ true → y ≡ x) xs
  Distinct-only same swap [] x d i = absurd i
  Distinct-only same swap (y ∷ ys) x d (inl e) =
      (λ _. sym e, All-imp _ (λ z no' was. cc e) ys (All-any-false (λ z. same z y) ys d.0))
  Distinct-only same swap (y ∷ ys) x d (inr i) = (
    λ was.
        cc (
          swap y x,
          All-In_elim (λ z. same z y ≡ false) ys (All-any-false (λ z. same z y) ys d.0) i,
        ),
    Distinct-only same swap ys x d.1 i,
  )

  -- An update that sets no column of the key.
  pub Distinct-update :
      (same : A → A → Bool) (p : A → Bool) (f : A → A)
      → ((x y : A) → same (f x) y ≡ same x y)
      → ((x y : A) → same x (f y) ≡ same x y)
      → (xs : List A) → Distinct same xs
      → Distinct same (update p f xs)
  unfolding update
  Distinct-update same p f left right [] d = tt
  Distinct-update same p f left right (x ∷ xs) d = (
    rw (any-update (λ y. same y (if p x then f x else x)) p f (λ y. left y _) xs) (free (p x)),
    Distinct-update same p f left right xs d.1,
  )
    where
      free : (b : Bool) → any (λ y. same y (if b then f x else x)) xs ≡ false
      free true = rw (fun_ext (λ y. right y x)) d.0
      free false = d.0

  -- UPDATE that takes a condition from the rows, by a test `b` that is the same for all of them.
  pub any-update_and :
      (q p : A → Bool) (f : A → A) (b : Bool) (xs : List A)
      → All (λ x. q (if p x then f x else x) ≡ (q x && b)) xs
      → any q (update p f xs) ≡ (any q xs && b)
  unfolding any update
  any-update_and q p f b [] h = refl
  any-update_and q p f b (x ∷ xs) h = ground (arith, any-update_and q p f b xs h.1)

  pub any-update_same :
      (q p : A → Bool) (f : A → A) (xs : List A)
      → All (λ x. q (if p x then f x else x) ≡ q x) xs
      → any q (update p f xs) ≡ any q xs
  unfolding any update
  any-update_same q p f [] h = refl
  any-update_same q p f (x ∷ xs) h = ground (arith, any-update_same q p f xs h.1)

  pub In-any : (q : A → Bool) (xs : List A) {x : A} → In x xs → q x ≡ true → any q xs ≡ true
  unfolding any
  In-any q [] i e = absurd i
  In-any q (y ∷ ys) (inl same) e = cc
  In-any q (y ∷ ys) (inr i) e = ground (arith, In-any q ys i e)

module _ {A B : Type 0} where
  -- The first parts of joined pairs are rows.
  pub join-In :
      (on : A → B → Bool) (xs : List A) (ys : List B) → All (λ p. In p.0 xs) (join on xs ys)
  join-In on xs ys =
      All-join (λ p. In p.0 xs) (λ x. In x xs) Anything on (λ x y e i _. i) xs ys
        (All-In xs xs (λ x i. i)) (All-Anything ys)

module _ {A B : Type 0} (R : A → B → Type 0) where
  -- Two tables, of which each pair of rows is related, after an UPDATE of each.
  pub All-update_both :
      (p : A → Bool) (f : A → A) (q : B → Bool) (g : B → B) (xs : List A) (ys : List B)
      → ((x : A) (y : B) → In x xs → R x y → R (if p x then f x else x) (if q y then g y else y))
      → All (λ x. All (R x) ys) xs
      → All (λ x. All (R x) (update q g ys)) (update p f xs)
  unfolding update
  All-update_both p f q g [] ys keep a = tt
  All-update_both p f q g (x ∷ xs) ys keep a =
      (row ys a.0, All-update_both p f q g xs ys (λ z y i. keep z y (inr i)) a.1)
    where
      row : (zs : List B) → All (R x) zs → All (R (if p x then f x else x)) (update q g zs)
      row [] b = tt
      row (z ∷ zs) b = (keep x z (inl refl) b.0, row zs b.1)
