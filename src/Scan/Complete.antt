-- ===== src/Scan/Complete.antt =====
-- A scan passes exactly when no file that it reaches is to be reported.
use guff_suff.Prelude.{
  ◌≡◌, refl, ◌↔◌, inl, inr, String, Bool, true, false, Option, none, some, List, [], ◌∷◌, ◌++◌,
  arith, map, All, Bool-cases,
}
use guff_suff.Scan.{
  Tree, file, dir, special, Entries, end, entry, FilePath, scan_entry, scan, scan_all, exit_code,
  skips_in_sources, is_source, symbols_in, scan_mock_crypto, ProhibitedPattern, skips_in_builds,
  is_artifact, secrets_in, scan_build_secrets,
}

-- A file of a tree that lies below no directory that is skipped, and has a name that is read.
pub data Reaches (skips reads : String → Bool) : Entries → String → Type 0 where
  in_file :
      {name text : String} {es : Entries}
      → reads name ≡ true
      → Reaches skips reads (entry name (file text) es) text
  in_dir :
      {name text : String} {inner es : Entries}
      → skips name ≡ false
      → Reaches skips reads inner text
      → Reaches skips reads (entry name (dir inner) es) text
  later :
      {name text : String} {t : Tree} {es : Entries}
      → Reaches skips reads es text
      → Reaches skips reads (entry name t es) text

append-nil_left : {A : Type 0} (xs ys : List A) → xs ++ ys ≡ [] → xs ≡ []
append-nil_left [] ys h = refl
append-nil_left (x ∷ xs) ys h = cc

append-nil_right : {A : Type 0} (xs ys : List A) → xs ++ ys ≡ [] → ys ≡ []
append-nil_right [] ys h = h
append-nil_right (x ∷ xs) ys h = cc

map-nil : {A B : Type 0} (f : A → B) (xs : List A) → map f xs ≡ [] → xs ≡ []
map-nil f [] h = refl
map-nil f (x ∷ xs) h = cc

module _ (skips reads : String → Bool) (found : String → List String) where
  scan_sound :
      (path : FilePath) (es : Entries) {text : String}
      → scan skips reads found path es ≡ []
      → Reaches skips reads es text
      → found text ≡ []
  unfolding scan
  scan_sound path _ h (in_file {name} {text} {es} wanted) =
      map-nil {B = String × FilePath} (λ p. (p, name ∷ path)) (found text)
        (ground (
          arith,
          wanted,
          append-nil_left (scan_entry skips reads found path name (file text))
              (scan skips reads found path es) h,
        ))
  scan_sound path _ h (in_dir {name} {text} {inner} {es} entered r) =
      scan_sound (name ∷ path) inner
        (ground (
          arith,
          entered,
          append-nil_left (scan_entry skips reads found path name (dir inner))
              (scan skips reads found path es) h,
        ))
        r
  scan_sound path _ h (later {name} {text} {t} {es} r) =
      scan_sound path es (append-nil_right (scan_entry skips reads found path name t) _ h) r

  mutual
    unfolding scan

    entry_complete :
        (path : FilePath) (name : String) (t : Tree) (es : Entries)
        → ((text : String) → Reaches skips reads (entry name t es) text → found text ≡ [])
        → scan_entry skips reads found path name t ≡ []
    entry_complete path name (file text) es h = elim (Bool-cases (reads name)) [
      | inl wanted ↦ rw (wanted, h text (in_file wanted)) refl
      | inr other ↦ rw other refl
    ]
    entry_complete path name (dir inner) es h = elim (Bool-cases (skips name)) [
      | inl skipped ↦ rw skipped refl
      | inr entered ↦
          rw entered (scan_complete (name ∷ path) inner (λ text r. h text (in_dir entered r)))
    ]
    entry_complete path name special es h = refl

    scan_complete :
        (path : FilePath) (es : Entries)
        → ((text : String) → Reaches skips reads es text → found text ≡ [])
        → scan skips reads found path es ≡ []
    scan_complete path end h = refl
    scan_complete path (entry name t es) h =
        rw (entry_complete path name t es h, scan_complete path es (λ text r. h text (later r)))
          refl

  -- What a root has to be.
  abbrev pub IsClean : Option Entries → Type 0
  IsClean none = Unit
  IsClean (some es) = (text : String) → Reaches skips reads es text → found text ≡ []

  scan_all_iff :
      (roots : List (FilePath × Option Entries))
      → (scan_all skips reads found roots ≡ []) ↔ All (λ r. IsClean r.1) roots
  unfolding scan_all
  scan_all_iff [] = (λ h. tt, λ a. refl)
  scan_all_iff ((path, none) ∷ roots) =
      (λ h. (tt, (scan_all_iff roots).0 h), λ a. (scan_all_iff roots).1 a.1)
  scan_all_iff ((path, some es) ∷ roots) = (
    λ h. (
      λ text r. scan_sound path es (append-nil_left _ _ h) r,
      (scan_all_iff roots).0 (append-nil_right (scan skips reads found path es) _ h),
    ),
    λ a. rw (scan_complete path es a.0, (scan_all_iff roots).1 a.1) refl,
  )

exit_code_iff : (hits : List (String × FilePath)) → (exit_code hits ≡ 0) ↔ (hits ≡ [])
unfolding exit_code
exit_code_iff [] = (λ h. refl, λ h. refl)
exit_code_iff (x ∷ hits) = (λ h. ground arith, λ h. cc)

-- The build with these directories is let through exactly if no source file of them contains the name of
-- a mock, unless it is in a directory that is skipped: the scan misses no file, however deep, and
-- reports nothing else.
pub scan_mock_crypto_iff :
    (packages services apps : Option Entries)
    → (scan_mock_crypto packages services apps ≡ 0)
      ↔ All (IsClean skips_in_sources is_source symbols_in) (packages ∷ services ∷ apps ∷ [])
unfolding scan_mock_crypto
scan_mock_crypto_iff packages services apps = (
  λ h. (scan_all_iff _ _ _ _).0 ((exit_code_iff _).0 h),
  λ a. (exit_code_iff _).1 ((scan_all_iff _ _ _ _).1 a),
)

-- The same of the built artifacts, for any patterns: the scan passes exactly if no artifact of a build
-- directory matches one of them.
pub scan_build_secrets_iff :
    (patterns : List ProhibitedPattern) (admin contracts crypto_adapter api : Option Entries)
    → (scan_build_secrets patterns admin contracts crypto_adapter api ≡ 0)
      ↔ All
          (IsClean skips_in_builds is_artifact (secrets_in patterns))
          (admin ∷ contracts ∷ crypto_adapter ∷ api ∷ [])
unfolding scan_build_secrets
scan_build_secrets_iff patterns admin contracts crypto_adapter api = (
  λ h. (scan_all_iff _ _ _ _).0 ((exit_code_iff _).0 h),
  λ a. (exit_code_iff _).1 ((scan_all_iff _ _ _ _).1 a),
)
