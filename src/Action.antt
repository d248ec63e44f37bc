-- ===== src/Action.antt =====
-- A method of a service reads and writes the stored state, and returns or throws. What it wrote
-- before it threw stays, unless `atomically`, the BEGIN ... COMMIT of the source with the ROLLBACK
-- of its `catch`, takes it back.
use guff_suff.Prelude.{◌≡◌, Bool, if◌then◌else◌}
use guff_suff.Errors.{Error, constraint_violation}

pub data Outcome {ℓ κ} (S : Type ℓ) (A : Type κ) : Type (ℓ ⊔ κ) where
  returned : S → A → Outcome S A
  threw : S → Error → Outcome S A

abbrev pub Action {ℓ κ} : Type ℓ → Type κ → Type (ℓ ⊔ κ)
Action S A = S → Outcome S A

module _ {ℓ} {S : Type ℓ} where
  abbrev pub continue {κ μ} :
      {A : Type κ} {B : Type μ} → Outcome S A → (A → Action S B) → Outcome S B
  continue (returned t a) f = f a t
  continue (threw t e) f = threw t e

  infixl 5 ◌>>=◌ ◌>>◌
  abbrev pub ◌>>=◌ {κ μ} : {A : Type κ} {B : Type μ} → Action S A → (A → Action S B) → Action S B
  ◌>>=◌ m f s = continue (m s) f

  abbrev pub ◌>>◌ {κ} : {B : Type κ} → Action S (Unit {0}) → Action S B → Action S B
  m >> k = m >>= λ _. k

  abbrev pub pure {κ} : {A : Type κ} → A → Action S A
  pure a s = returned s a

  abbrev pub throw {κ} : {A : Type κ} → Error → Action S A
  throw e s = threw s e

  -- One read-only query.
  abbrev pub gets {κ} : {A : Type κ} → (S → A) → Action S A
  gets f s = returned s (f s)

  -- One UPDATE or DELETE statement.
  abbrev pub modify : (S → S) → Action S (Unit {0})
  modify f s = returned (f s) tt

  -- One INSERT statement, refused where a constraint fails.
  abbrev pub insert : (S → Bool) → (S → S) → Action S (Unit {0})
  insert violated f s = if violated s then threw s constraint_violation else returned (f s) tt

  abbrev pub rolled_back {κ} : {A : Type κ} → S → Outcome S A → Outcome S A
  rolled_back s (returned t a) = returned t a
  rolled_back s (threw t e) = threw s e

  abbrev pub atomically {κ} : {A : Type κ} → Action S A → Action S A
  atomically m s = rolled_back s (m s)

  -- The state that a call leaves, however it ends.
  abbrev pub final {κ} : {A : Type κ} → Outcome S A → S
  final (returned t a) = t
  final (threw t e) = t

  -- Rollback: a transaction that throws leaves the state that it began with.
  pub atomically-threw {κ} :
      {A : Type κ} (m : Action S A) {s t : S} {e : Error} → atomically m s ≡ threw t e → t ≡ s
  atomically-threw {A = A} m {s} {t} {e} h = go (m s) h
    where
      go : (o : Outcome S A) → rolled_back s o ≡ threw t e → t ≡ s
      go (returned u a) k = cc
      go (threw u x) k = cc
