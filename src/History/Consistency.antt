-- ===== src/History/Consistency.antt =====
-- The families of refresh tokens and their tokens, over any history.
use guff_suff.Prelude.{
  ℕ, ◌≡◌, refl, ap, Bool, true, false, List, [], ◌∷◌, ◌&&◌, arith, ◌==◌, any, any-update, update,
  All, All-imp, All-intro, All-any-false, All-update, In, In-any, All-and, Distinct,
  Distinct-update, Distinct-only, All-update_both,
}
use guff_suff.Environment.{Environment}
use guff_suff.Schema.Identity.{RefreshTokenFamily, RefreshToken, IdentityDb}
use guff_suff.Schema.Constraints.{family_violates}
use guff_suff.Session.{
  compromise, flagged_at, token_revoked_at, revoke_session, revoke_all_sessions_for_user,
  replacement_of, linked_to, created_token,
}
use guff_suff.Session.Cases.{create_session_cases}
use guff_suff.Session.Found.{found-family, rotate_found_cases}
use guff_suff.Device.{revoke_credentials, mark_revoked}
use guff_suff.Device.Cases.{rename_device_cases, revoke_device_cases}
use guff_suff.History.{
  Call, creates, rotates, logs_out, logs_out_all, renames, revokes, step, run, run_keeps,
}

abbrev same_family : RefreshTokenFamily → RefreshTokenFamily → Bool
same_family f g = f.id == g.id

-- A token of a compromised family is revoked.
abbrev pub Sealed : RefreshTokenFamily → RefreshToken → Type 0
Sealed f t = f.is_compromised ≡ true → (t.family_id == f.id) ≡ true → t.is_revoked ≡ true

pub record IsConsistent (db : IdentityDb) : Type 0 where
  pub families : Distinct same_family db.refresh_token_families
  pub dead : All (λ f. All (Sealed f) db.refresh_tokens) db.refresh_token_families

flag-Distinct :
    (p : RefreshTokenFamily → Bool) (now : ℕ) (fs : List RefreshTokenFamily)
    → Distinct same_family fs
    → Distinct same_family (update p (flagged_at now) fs)
flag-Distinct p now fs h =
    Distinct-update same_family p (flagged_at now) (λ x y. refl) (λ x y. refl) fs h

-- Families with a mark are flagged, and at least the tokens of such families revoked.
flag-Sealed :
    (marks : RefreshTokenFamily → Bool) (revokes_it : RefreshToken → Bool) (now : ℕ)
    (fs : List RefreshTokenFamily) (ts : List RefreshToken)
    → ((t : RefreshToken)
        → any (λ g. (g.id == t.family_id) && marks g) fs ≡ true
        → revokes_it t ≡ true)
    → All (λ f. All (Sealed f) ts) fs
    → All
        (λ f. All (Sealed f) (update revokes_it (token_revoked_at now) ts))
        (update marks (flagged_at now) fs)
flag-Sealed marks revokes_it now fs ts covers h =
    All-update_both Sealed marks (flagged_at now) revokes_it (token_revoked_at now) fs ts
      (λ f t i k. ground (arith, In-any (λ g. (g.id == t.family_id) && marks g) fs i, covers t)) h

any-elim :
    {A : Type 0} (p : A → Bool) (b : Bool)
    → ((x : A) → p x ≡ true → b ≡ true)
    → (xs : List A) → any p xs ≡ true
    → b ≡ true
unfolding any
any-elim p b h [] e = cc
any-elim p b h (x ∷ xs) e = ground (arith, h x, any-elim p b h xs)

-- A token of a family that is there and not compromised may be added.
add-Sealed :
    (t : RefreshToken) (f : RefreshTokenFamily) (fs : List RefreshTokenFamily)
    (ts : List RefreshToken)
    → Distinct same_family fs
    → In f fs
    → t.family_id ≡ f.id
    → f.is_compromised ≡ false
    → All (λ g. All (Sealed g) ts) fs
    → All (λ g. All (Sealed g) (t ∷ ts)) fs
add-Sealed t f fs ts keys i of_family alive h =
    All-imp _
      (λ g a. (
        λ dead is.
            let same : g ≡ f = a.0 (ground arith) in
            cc (alive, dead, ap (λ (x : RefreshTokenFamily). x.is_compromised) same),
        a.1,
      ))
      fs
      (All-and (λ g. same_family g f ≡ true → g ≡ f) (λ g. All (Sealed g) ts) fs
        (Distinct-only same_family (λ x y. ground arith) fs f keys i) h)

module _ (env : Environment) where
  step-IsConsistent : (db : IdentityDb) (c : Call) → IsConsistent db → IsConsistent (step env db c)
  unfolding step revoke_credentials mark_revoked compromise revoke_session
      revoke_all_sessions_for_user family_violates
  step-IsConsistent db (creates user device d) h =
      create_session_cases env IsConsistent user device d db h (λ _ fresh _. record {
        families = (ground arith, h.families);
        dead = (
          All-intro _ (λ t dead. cc) (created_token env d ∷ db.refresh_tokens),
          All-imp _ (λ g a. (λ _ is. ground (arith, a.0), a.1)) _
              (All-and (λ g. (g.id == d.family_id) ≡ false) (λ g. All (Sealed g) db.refresh_tokens)
                _
                (All-any-false (λ g. g.id == d.family_id) db.refresh_token_families (ground arith))
                h.dead),
        );
      })
  step-IsConsistent db (rotates raw d) h =
      rotate_found_cases env IsConsistent raw d db h
        (λ t f rest found. record {
          families = flag-Distinct (λ g. g.id == t.family_id) d.db_now _ h.families;
          dead =
              flag-Sealed (λ g. g.id == t.family_id) (λ x. x.family_id == t.family_id) d.db_now _ _
                (λ x is. any-elim _ _ (λ g both. ground arith) db.refresh_token_families is) h.dead;
        })
        (λ t f rest found alive. record {
          families = h.families;
          dead =
              add-Sealed (replacement_of env t d) f _ _ h.families (found-family _ db found).0
                (found-family _ db found).1 alive
                (All-imp _
                  (λ g a. All-update (Sealed g) (λ x. x.id == t.id) (linked_to d) (λ x _ k. k) _ a)
                  _ h.dead);
        })
  step-IsConsistent db (logs_out session now) h = record { families = h.families; dead = h.dead }
  step-IsConsistent db (logs_out_all user now) h = record {
    families = flag-Distinct (λ g. g.user_id == user) now _ h.families;
    dead =
        flag-Sealed (λ g. g.user_id == user) _ now db.refresh_token_families db.refresh_tokens
          (λ t is.
            rw
              (any-update (λ g. (g.id == t.family_id) && (g.user_id == user))
                (λ g. g.user_id == user) (flagged_at now) (λ g. refl) db.refresh_token_families)
              is)
          h.dead;
  }
  step-IsConsistent db (renames user device name d) h =
      rename_device_cases IsConsistent user device d db name
        (record { families = h.families; dead = h.dead })
        (record { families = h.families; dead = h.dead })
  step-IsConsistent db (revokes user device reason d) h =
      revoke_device_cases IsConsistent user device d db env reason h λ name. record {
        families = flag-Distinct (λ g. g.device_id == device) d.db_now _ h.families;
        dead =
            flag-Sealed (λ g. g.device_id == device) _ d.db_now db.refresh_token_families
              db.refresh_tokens
              (λ t is.
                rw
                  (any-update (λ g. (g.id == t.family_id) && (g.device_id == device))
                    (λ g. g.device_id == device) (flagged_at d.db_now) (λ g. refl)
                    db.refresh_token_families)
                  is)
              h.dead;
      }

-- Once every token of a compromised family is revoked, this stays so over any history of calls, and
-- the identifiers of the families stay distinct: no call adds a live token to a compromised family,
-- and none compromises a family and leaves a token of it live.
pub run-IsConsistent :
    (env : Environment) (db : IdentityDb) (cs : List Call)
    → IsConsistent db
    → IsConsistent (run env db cs)
run-IsConsistent env = run_keeps env IsConsistent (step-IsConsistent env)
