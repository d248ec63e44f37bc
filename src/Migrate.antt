-- ===== src/Migrate.antt =====
-- packages/database/src/migrate.ts: runMigrations. A migration is the text of a file; what the server
-- does with it is a parameter, and so are the files of the directory.
pub mod Repeat
use Prim.Native.Char.{code}
use text.Mathlib.Text.{◌==◌ as str_eq}
use guff_suff.Prelude.{
  ℕ, String, Bool, true, false, List, [], ◌∷◌, ltb, ◌==◌, ◌||◌, ◌&&◌, if◌then◌else◌, any, select,
}
use guff_suff.Text.{ends_with}
use guff_suff.Action.{Outcome, returned, threw, Action, ◌>>=◌, ◌>>◌, pure, gets, insert}

-- The order of `sort()`, on the names of one plane of Unicode.
unfoldable pub before : String → String → Bool
before String.[] String.[] = false
before String.[] (String.◌∷◌ d t) = true
before (String.◌∷◌ c s) String.[] = false
before (String.◌∷◌ c s) (String.◌∷◌ d t) =
    ltb (code c) (code d) || ((code c == code d) && before s t)

unfoldable pub insert_name : String → List String → List String
insert_name x [] = x ∷ []
insert_name x (y ∷ ys) = let rest = insert_name x ys in if before y x then y ∷ rest else x ∷ y ∷ ys

unfoldable pub sort_names : List String → List String
sort_names [] = []
sort_names (x ∷ xs) = insert_name x (sort_names xs)

-- schema_migrations, and the rest of the database.
pub record Migrated {ℓ} (S : Type ℓ) : Type ℓ where
  pub versions : List String
  pub stored : S

module _ {ℓ} {S : Type ℓ} (query : String → Action S (Unit {0})) where
  abbrev in_migrated : List String → Outcome S (Unit {0}) → Outcome (Migrated S) (Unit {0})
  in_migrated versions (returned s a) = returned (record { versions = versions; stored = s }) a
  in_migrated versions (threw s e) = threw (record { versions = versions; stored = s }) e

  -- pool.query(sql): a statement of its own, as is the INSERT that follows.
  abbrev pub execute : String → Action (Migrated S) (Unit {0})
  execute sql m = in_migrated m.versions (query sql m.stored)

  abbrev pub is_applied : String → Migrated S → Bool
  is_applied file m = any (λ v. str_eq v file) m.versions

  abbrev pub record_version : String → Action (Migrated S) (Unit {0})
  record_version file =
      insert (is_applied file) (λ m. record { versions = file ∷ m.versions; stored = m.stored })

  apply_unless : Bool → (String → String) → String → Action (Migrated S) (Unit {0})
  apply_unless true read file = pure tt
  apply_unless false read file = do execute (read file); record_version file

  unfoldable pub run_files : (String → String) → List String → Action (Migrated S) (Unit {0})
  unfolding apply_unless
  run_files read [] = pure tt
  run_files read (file ∷ files) = do
    applied ← gets (is_applied file)
    apply_unless applied read file
    run_files read files

  -- `read` is readFileSync of a file of the directory, `names` is readdirSync, or
  -- none where the directory is missing.
  unfoldable pub run_migrations : (String → String) → List String → Action (Migrated S) (Unit {0})
  run_migrations read names = run_files read (sort_names (select (ends_with ".sql") names))
