-- ===== src/Samples/Sessions.antt =====
-- Sessions and refresh tokens.
use guff_suff.Prelude.{◌≡◌, refl, inl, true, [], arith, any, select, join}
use guff_suff.Errors.{refresh_token_reuse}
use guff_suff.Action.{returned, threw}
use guff_suff.Schema.Constraints.{security_event_violates}
use guff_suff.Session.{rotate_refresh_token, find_token, live_replacement, compromise, rotated_pair}
use guff_suff.Session.Cases.{after_reuse}
use guff_suff.Session.Reuse.{IsTerminated, rotate-reuse, grace-reuse}
use guff_suff.Samples.{env_with, claims_for, rotated_db, family, old_token, rotation_at}

rotate-reuse_example :
    (rotate_refresh_token (env_with true (claims_for 100 1 10)) "abc" (rotation_at 20000) rotated_db
      ≡ threw (after_reuse old_token family (rotation_at 20000) rotated_db) refresh_token_reuse)
    × IsTerminated old_token family (after_reuse old_token family (rotation_at 20000) rotated_db)
unfolding find_token join select any security_event_violates compromise
rotate-reuse_example =
    rotate-reuse (env_with true (claims_for 100 1 10)) "abc" (rotation_at 20000) rotated_db
      {rest = []} refl refl refl (omega arith) refl (inl (omega arith)) refl

grace-reuse_example :
    (rotate_refresh_token (env_with true (claims_for 100 1 10)) "abc" (rotation_at 5000) rotated_db
      ≡ returned rotated_db
          (rotated_pair (env_with true (claims_for 100 1 10)) "abc" family (rotation_at 5000)))
    × (rotate_refresh_token
          (env_with true (claims_for 100 1 10))
          "abc"
          (rotation_at 20000)
          rotated_db
        ≡ threw (after_reuse old_token family (rotation_at 20000) rotated_db) refresh_token_reuse)
unfolding find_token join select any security_event_violates compromise live_replacement
grace-reuse_example =
    grace-reuse (env_with true (claims_for 100 1 10)) "abc" (rotation_at 5000) rotated_db
      {rest = []} refl refl refl (omega arith) refl (rotation_at 20000) (omega arith) refl
      (omega arith) (omega arith) refl
