-- ===== src/Text.antt =====
-- Methods of JavaScript strings.
use text.Mathlib.Text.{◌==◌ as str_eq}
use guff_suff.Prelude.{String, Bool, true, false, ◌&&◌, ◌||◌}

unfoldable pub starts_with : String → String → Bool
starts_with s String.[] = true
starts_with String.[] (String.◌∷◌ d t) = false
starts_with (String.◌∷◌ c s) (String.◌∷◌ d t) =
    str_eq (String.◌∷◌ c String.[]) (String.◌∷◌ d String.[]) && starts_with s t

-- s.includes(t)
unfoldable pub includes : String → String → Bool
unfolding starts_with
includes String.[] t = starts_with String.[] t
includes (String.◌∷◌ c s) t = starts_with (String.◌∷◌ c s) t || includes s t

-- s.endsWith(suffix)
unfoldable pub ends_with : String → String → Bool
ends_with suffix String.[] = str_eq String.[] suffix
ends_with suffix (String.◌∷◌ c s) = str_eq (String.◌∷◌ c s) suffix || ends_with suffix s

-- `${s}${t}`
unfoldable pub concat : String → String → String
concat String.[] t = t
concat (String.◌∷◌ c s) t = String.◌∷◌ c (concat s t)
