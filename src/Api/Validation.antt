-- ===== src/Api/Validation.antt =====
-- What a handler refuses before the service sees it.
use guff_suff.Prelude.{◌≡◌, ◌≢◌, refl, true, Option, none, some, String, arith}
use guff_suff.Errors.{malformed_pin, invalid_body}
use guff_suff.Action.{threw}
use guff_suff.Environment.{Environment}
use guff_suff.Json.{Body}
use guff_suff.Schema.Identity.{IdentityDb}
use guff_suff.Contracts.{pin_schema}
use guff_suff.RegistrationLock.{is_pin, LockDraws, hash_pin, set_pin}
use guff_suff.Guard.{RequestUser}
use guff_suff.Api.{parsed}
use guff_suff.Api.Guarded.{set_pin_request}

-- What the schema of a PIN accepts, the service takes as a PIN.
pin_schema-is_pin : (body : Body) {pin : String} → pin_schema body ≡ some pin → is_pin pin ≡ true
unfolding pin_schema
pin_schema-is_pin body h = ground arith

set_parsed :
    (env : Environment) (user : RequestUser) (o : Option String) (d : LockDraws) (db : IdentityDb)
    (db' : IdentityDb)
    → ((pin : String) → o ≡ some pin → is_pin pin ≡ true)
    → parsed o (λ pin. set_pin env user.user_id pin d) db ≢ threw db' malformed_pin
unfolding set_pin hash_pin
set_parsed env user none d db db' valid h = ground arith
set_parsed env user (some pin) d db db' valid h = ground (arith, valid pin refl)

-- The answer to a request to set a PIN is never the service's own complaint about its format: what is
-- no PIN is refused as an invalid body, with nothing changed, and what passes is a PIN.
pub set_pin_request-Validated :
    (env : Environment) (user : RequestUser) (body : Body) (d : LockDraws) (db : IdentityDb)
    → ((db' : IdentityDb) → set_pin_request env user body d db ≢ threw db' malformed_pin)
      × (pin_schema body ≡ none → set_pin_request env user body d db ≡ threw db invalid_body)
unfolding set_pin_request
set_pin_request-Validated env user body d db = (
  λ db'. set_parsed env user (pin_schema body) d db db' (λ pin h. pin_schema-is_pin body h),
  λ h. rw h refl,
)
