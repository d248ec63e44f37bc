-- ===== src/Scan.antt =====
-- The scans of scripts/scan-mock-crypto.js and scripts/scan-build-secrets.js over a directory tree. The
-- entries of a directory come in the order of readdirSync; a path lists the names from the last to the
-- first.
pub mod Complete
use guff_suff.Prelude.{
  ℕ, String, Bool, Option, none, some, List, [], ◌∷◌, ◌++◌, ◌||◌, ltb, if◌then◌else◌, any, map,
  select, length,
}
use text.Mathlib.Text.{◌==◌ as str_eq}
use guff_suff.Text.{includes, ends_with}

-- An entry is a file with its text, a directory, or something else.
mutual
  pub data Tree : Type 0 where
    file : String → Tree
    dir : Entries → Tree
    special : Tree

  pub data Entries : Type 0 where
    end : Entries
    entry : String → Tree → Entries → Entries

abbrev pub FilePath : Type 0
FilePath = List String

-- `skips` names the directories that are not entered, `reads` the files that are read, and `found` what
-- a text of a file is reported for.
module _ (skips reads : String → Bool) (found : String → List String) where
  unfoldable mutual
    pub scan_entry : FilePath → String → Tree → List (String × FilePath)
    scan_entry path name (file text) =
        if reads name then map (λ p. (p, name ∷ path)) (found text) else []
    scan_entry path name (dir es) =
        let hits = scan (name ∷ path) es in if skips name then [] else hits
    scan_entry path name special = []

    pub scan : FilePath → Entries → List (String × FilePath)
    scan path end = []
    scan path (entry name t es) = scan_entry path name t ++ scan path es

  -- The roots one after the other; a root that does not exist has nothing to report.
  unfoldable pub scan_all : List (FilePath × Option Entries) → List (String × FilePath)
  unfolding scan
  scan_all [] = []
  scan_all ((path, none) ∷ roots) = scan_all roots
  scan_all ((path, some es) ∷ roots) = scan path es ++ scan_all roots

-- process.exit(1) where there is a violation
unfoldable pub exit_code : List (String × FilePath) → ℕ
exit_code hits = if ltb 0 (length hits) then 1 else 0

-- [...].includes(name)
abbrev one_of : List String → String → Bool
one_of names name = any (λ n. str_eq n name) names

-- scan-mock-crypto.js
unfoldable pub forbidden_symbols : List String
forbidden_symbols = "MockCryptoProvider" ∷ "DummyCryptoAdapter" ∷ "ReversibleTestCipher" ∷ []

unfoldable pub skips_in_sources : String → Bool
skips_in_sources = one_of ("node_modules" ∷ ".git" ∷ "dist" ∷ ".next" ∷ [])

unfoldable pub is_source : String → Bool
is_source name = ends_with ".ts" name || ends_with ".js" name

unfoldable pub symbols_in : String → List String
symbols_in content = select (includes content) forbidden_symbols

-- The directories packages, services and apps.
unfoldable pub scan_mock_crypto : Option Entries → Option Entries → Option Entries → ℕ
scan_mock_crypto packages services apps = exit_code (
    scan_all skips_in_sources is_source symbols_in
      (("packages" ∷ [], packages) ∷ ("services" ∷ [], services) ∷ ("apps" ∷ [], apps) ∷ []))

-- scan-build-secrets.js, with the regular expressions of PROHIBITED_PATTERNS as tests on a text.
pub record ProhibitedPattern : Type 0 where
  pub name : String
  pub matches : String → Bool

unfoldable pub skips_in_builds : String → Bool
skips_in_builds name = str_eq name "node_modules" || str_eq name ".git"

unfoldable pub is_artifact : String → Bool
is_artifact name = ends_with ".js" name || (ends_with ".json" name || ends_with ".html" name)

unfoldable pub secrets_in : List ProhibitedPattern → String → List String
secrets_in patterns content = map (λ p. p.name) (select (λ p. p.matches content) patterns)

-- The four build directories.
unfoldable pub scan_build_secrets :
    List ProhibitedPattern → Option Entries → Option Entries → Option Entries → Option Entries → ℕ
scan_build_secrets patterns admin contracts crypto_adapter api = exit_code (
    scan_all skips_in_builds is_artifact (secrets_in patterns) (
      (".next" ∷ "admin" ∷ "apps" ∷ [], admin)
      ∷ ("dist" ∷ "contracts" ∷ "packages" ∷ [], contracts)
      ∷ ("dist" ∷ "crypto-adapter" ∷ "packages" ∷ [], crypto_adapter)
      ∷ ("dist" ∷ "api" ∷ "services" ∷ [], api)
      ∷ []))
