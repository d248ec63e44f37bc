-- ===== src/Json.antt =====
-- The values of a request body after JSON.parse, and how the handlers read them.
use text.Mathlib.Text.{◌==◌ as str_eq}
use guff_suff.Prelude.{ℕ, String, Bool, true, false, List, [], ◌∷◌, if◌then◌else◌, ◌==◌}

-- `natural` is a whole number that is not negative, `other_number` any other one; what objects and
-- arrays hold below the body itself is read nowhere.
pub data Json : Type 0 where
  missing null object array other_number : Json
  flag : Bool → Json
  natural : ℕ → Json
  string : String → Json

abbrev pub Body : Type 0
Body = List (String × Json)

-- body.name
unfoldable pub field : String → Body → Json
field name [] = Json.missing
field name ((key, value) ∷ rest) =
    let below = field name rest in if str_eq key name then value else below

-- Whether `value || fallback` takes the fallback.
unfoldable pub is_falsy : Json → Bool
is_falsy Json.missing = true
is_falsy Json.null = true
is_falsy (Json.flag b) = if b then false else true
is_falsy (Json.natural n) = n == 0
is_falsy (Json.string s) = str_eq s ""
is_falsy _ = false
