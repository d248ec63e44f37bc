-- ===== src/Migrate/Repeat.antt =====
-- A second run of the migrations.
use text.Mathlib.TextPositions.{eq_refl}
use guff_suff.Prelude.{
  ◌≡◌, refl, inl, inr, String, true, false, List, [], ◌∷◌, arith, Bool-cases, any, All, select,
}
use guff_suff.Action.{Action, Outcome, returned, threw}
use guff_suff.Text.{ends_with}
use guff_suff.Migrate.{Migrated, is_applied, run_files, run_migrations, sort_names, apply_unless}

module _ {S : Type 0} (query : String → Action S (Unit {0})) (read : String → String) where
  -- Of one file, after which the rest is run.
  data Applied (file : String) (files : List String) (m m' : Migrated S) : Type 0 where
    continued :
        (mid : Migrated S)
        → is_applied query file mid ≡ true
        → ((f : String) → is_applied query f m ≡ true → is_applied query f mid ≡ true)
        → run_files query read files mid ≡ returned m' tt
        → Applied file files m m'

  first-Applied :
      (file : String) (files : List String) (m m' : Migrated S)
      → run_files query read (file ∷ files) m ≡ returned m' tt
      → Applied file files m m'
  unfolding run_files apply_unless any
  first-Applied file files m m' h = elim (Bool-cases (is_applied query file m)) [
    | inl old ↦ continued m old (λ f k. k) (ground (arith, old))
    | inr new ↦ go (query (read file) m.stored) refl new
  ]
    where
      go :
          (o : Outcome S (Unit {0}))
          → query (read file) m.stored ≡ o
          → is_applied query file m ≡ false
          → Applied file files m m'
      go (returned s a) e new =
          continued (record { versions = file ∷ m.versions; stored = s })
            (ground (arith, eq_refl file)) (λ f k. ground arith) (ground (arith, e, new, h))
      go (threw s x) e new = absurd (ground (arith, e, new, h))

  run_files-kept :
      (files : List String) (m m' : Migrated S)
      → run_files query read files m ≡ returned m' tt
      → (f : String) → is_applied query f m ≡ true
      → is_applied query f m' ≡ true
  unfolding run_files
  run_files-kept [] m m' h f k = ground arith
  run_files-kept (file ∷ files) m m' h f k = elim (first-Applied file files m m' h) [
    | continued mid here kept rest ↦ run_files-kept files mid m' rest f (kept f k)
  ]

  run_files-All :
      (files : List String) (m m' : Migrated S)
      → run_files query read files m ≡ returned m' tt
      → All (λ f. is_applied query f m' ≡ true) files
  run_files-All [] m m' h = tt
  run_files-All (file ∷ files) m m' h = elim (first-Applied file files m m' h) [
    | continued mid here kept rest ↦
        (run_files-kept files mid m' rest file here, run_files-All files mid m' rest)
  ]

  run_files-nothing :
      (files : List String) (m : Migrated S)
      → All (λ f. is_applied query f m ≡ true) files
      → run_files query read files m ≡ returned m tt
  unfolding run_files apply_unless
  run_files-nothing [] m a = refl
  run_files-nothing (file ∷ files) m a = rw a.0 (run_files-nothing files m a.1)

  -- After a run that returns, a second run over the same files returns as well, and leaves versions and
  -- data as the first left them.
  pub run_migrations_idempotent :
      (names : List String) (m m' : Migrated S)
      → run_migrations query read names m ≡ returned m' tt
      → run_migrations query read names m' ≡ returned m' tt
  unfolding run_migrations
  run_migrations_idempotent names m m' h =
      let files = sort_names (select (ends_with ".sql") names) in
      run_files-nothing files m' (run_files-All files m m' h)
