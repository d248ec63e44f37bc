-- ===== src/Sbom.antt =====
-- scripts/generate-sbom.js: the list of components of the bill of materials, from what its regular
-- expression matches in the text of pnpm-lock.yaml.
pub mod Firsts
use Prim.Native.String.{◌++◌}
use text.Mathlib.Text.{◌==◌ as str_eq}
use guff_suff.Prelude.{String, Bool, List, [], ◌∷◌, any, if◌then◌else◌}

-- The two groups of a match.
pub record Match : Type 0 where
  pub name : String
  pub version : String

pub record SbomComponent : Type 0 where
  pub component_type : String
  pub name : String
  pub version : String
  pub purl : String
  pub licenses : List String

abbrev pub key : Match → String
key m = m.name ++ ("@" ++ m.version)

unfoldable pub component : Match → SbomComponent
component m = record {
  component_type = "library";
  name = m.name;
  version = m.version;
  purl = "pkg:npm/" ++ (m.name ++ ("@" ++ m.version));
  licenses = "MIT" ∷ [];
}

-- seen.has(key)
abbrev pub is_seen : List String → Match → Bool
is_seen seen m = any (λ k. str_eq k (key m)) seen

-- The loop, with the keys that it has seen.
unfoldable pub collect : List String → List Match → List SbomComponent
collect seen [] = []
collect seen (m ∷ ms) =
    let known = is_seen seen m in
    let rest = collect (if known then seen else key m ∷ seen) ms in
    if known then rest else component m ∷ rest

unfoldable pub fallback : List SbomComponent
unfolding component
fallback =
    component (record { name = "zod"; version = "3.24.2" })
    ∷ component (record { name = "pino"; version = "9.6.0" })
    ∷ []

-- components.length > 0 ? components : [...]
or_fallback : List SbomComponent → List SbomComponent
or_fallback [] = fallback
or_fallback (c ∷ cs) = c ∷ cs

unfoldable pub sbom_components : List Match → List SbomComponent
unfolding or_fallback collect
sbom_components matches = or_fallback (collect [] matches)
