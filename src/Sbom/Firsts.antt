-- ===== src/Sbom/Firsts.antt =====
-- The loop of the bill of materials keeps the first match of each package.
use text.Mathlib.Text.{◌==◌ as str_eq}
use text.Mathlib.TextEquality.{eq_iff}
use guff_suff.Prelude.{
  ◌≡◌, refl, sym, subst, ◌∙◌, ap, inl, inr, Bool, true, false, ◌||◌, arith, List, [], ◌∷◌, any, map,
  remove, Bool-cases, String,
}
use guff_suff.Sbom.{Match, key, is_seen, component, collect}

abbrev pub same_package : Match → Match → Bool
same_package m x = str_eq (key m) (key x)

-- The first match of each package, in their order.
unfoldable pub firsts : List Match → List Match
firsts [] = []
firsts (m ∷ ms) = m ∷ remove (same_package m) (firsts ms)

-- Two removals are one.
remove-remove :
    {A : Type 0} (p q r : A → Bool)
    → ((x : A) → r x ≡ (q x || p x))
    → (xs : List A) → remove p (remove q xs) ≡ remove r xs
unfolding remove
remove-remove p q r both [] = refl
remove-remove p q r both (x ∷ xs) = ground (arith, both x, remove-remove p q r both xs)

remove_none : {A : Type 0} (xs : List A) → remove (λ x. false) xs ≡ xs
unfolding remove
remove_none [] = refl
remove_none (x ∷ xs) = ground (arith, remove_none xs)

-- A package with the same key as one that has been seen has been seen.
seen-same :
    (seen : List String) (m x : Match)
    → is_seen seen m ≡ true
    → is_seen seen x ≡ (same_package m x || is_seen seen x)
seen-same seen m x known = elim (Bool-cases (same_package m x)) [
  | inl same ↦
      rw same
        (subst (λ k. any (λ j. str_eq j k) seen ≡ true) ((eq_iff (key m) (key x)).0 same) known)
  | inr other ↦ rw other refl
]

seen_more :
    (seen : List String) (m x : Match)
    → is_seen (key m ∷ seen) x ≡ (same_package m x || is_seen seen x)
unfolding any
seen_more seen m x = ground arith

collect-remove :
    (ms : List Match) (seen : List String)
    → collect seen ms ≡ map component (remove (is_seen seen) (firsts ms))
unfolding collect firsts remove
collect-remove [] seen = refl
collect-remove (m ∷ ms) seen = elim (Bool-cases (is_seen seen m)) [
  | inl known ↦ rw known (
      collect-remove ms seen
      ∙ ap (map component) (
          sym (
            remove-remove (is_seen seen) (same_package m) (is_seen seen)
              (λ x. seen-same seen m x known) (firsts ms))))
  | inr new ↦ rw new (
      ap (λ rest. component m ∷ rest)
        (collect-remove ms (key m ∷ seen)
          ∙ ap (map component) (
              sym (
                remove-remove (is_seen seen) (same_package m) (is_seen (key m ∷ seen))
                  (seen_more seen m) (firsts ms)))))
]

-- The loop lists the first match of each package, in the order of the matches, and nothing else.
pub collect-firsts : (ms : List Match) → collect [] ms ≡ map component (firsts ms)
unfolding remove any
collect-firsts ms = collect-remove ms [] ∙ ap (map component) (remove_none (firsts ms))
