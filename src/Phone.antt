-- ===== src/Phone.antt =====
-- services/api/src/identity/phone-number.service.ts: the form in which a phone number is stored.
use Prim.Native.Nat.{zero, suc}
use Prim.Native.Char.{Char, code}
use Prim.Native.String.{count, ◌++◌ as string_append}
use mathlib.Core.List.{foldl}
use guff_suff.Prelude.{
  ℕ, ◌+◌, ◌*◌, ◌-◌, ◌≡◌, refl, ap, ◌∙◌, String, Bool, Option, none, some, List, [], ◌∷◌, ◌++◌, ◌&&◌,
  ◌||◌, leb, ◌==◌, if◌then◌else◌, arith, length,
}
use guff_suff.Environment.{Environment, PhoneNumber, env_or}

-- NEPALI_NUMERAL_MAP: the digits U+0966 to U+096F, and every other character as it is
abbrev ascii_numeral : Char → Char
ascii_numeral c =
    if code c == 2406
    then "0"
    else if code c == 2407
    then "1"
    else if code c == 2408
    then "2"
    else if code c == 2409
    then "3"
    else if code c == 2410
    then "4"
    else if code c == 2411
    then "5"
    else if code c == 2412
    then "6"
    else if code c == 2413
    then "7"
    else if code c == 2414
    then "8"
    else if code c == 2415
    then "9"
    else c

unfoldable pub convert_nepali_numerals_to_ascii : String → String
convert_nepali_numerals_to_ascii String.[] = String.[]
convert_nepali_numerals_to_ascii (String.◌∷◌ c s) =
    String.◌∷◌ (ascii_numeral c) (convert_nepali_numerals_to_ascii s)

-- The characters that `trim` removes.
abbrev is_space : ℕ → Bool
is_space c =
    (leb 9 c && leb c 13)
    || ((c == 32)
        || ((c == 160)
            || ((c == 5760)
                || ((leb 8192 c && leb c 8202)
                    || ((c == 8232)
                        || ((c == 8233)
                            || ((c == 8239)
                                || ((c == 8287) || ((c == 12288) || (c == 65279))))))))))

trim_start : String → String
trim_start String.[] = String.[]
trim_start (String.◌∷◌ c s) =
    let rest = trim_start s in if is_space (code c) then rest else String.◌∷◌ c s

abbrev cons_unless_space : Char → String → String
cons_unless_space c String.[] = if is_space (code c) then String.[] else String.◌∷◌ c String.[]
cons_unless_space c (String.◌∷◌ e s) = String.◌∷◌ c (String.◌∷◌ e s)

trim_end : String → String
trim_end String.[] = String.[]
trim_end (String.◌∷◌ c s) = cons_unless_space c (trim_end s)

abbrev first_bytes : ℕ → List ℕ → List ℕ
first_bytes zero bytes = []
first_bytes (suc n) [] = []
first_bytes (suc n) (b ∷ bytes) = b ∷ first_bytes n bytes

abbrev bytes_from : ℕ → List ℕ → List ℕ
bytes_from zero bytes = bytes
bytes_from (suc n) [] = []
bytes_from (suc n) (b ∷ bytes) = bytes_from n bytes

-- The number that the hex digits of a digest write.
abbrev digest_number : List ℕ → ℕ
digest_number = foldl (λ number byte. number * 256 + byte) 0

take : ℕ → String → String
take zero s = String.[]
take (suc n) String.[] = String.[]
take (suc n) (String.◌∷◌ c s) = String.◌∷◌ c (take n s)

drop : ℕ → String → String
drop zero s = s
drop (suc n) String.[] = String.[]
drop (suc n) (String.◌∷◌ c s) = drop n s

-- A character stands for one unit of a JavaScript string, as those of E.164 do.
unfoldable pub mask_phone_number : String → String
unfolding take drop
mask_phone_number e164_phone =
    if leb (count e164_phone) 6
    then "***"
    else string_append (take 5 e164_phone)
        (string_append "****" (drop (count e164_phone - 4) e164_phone))

module _ (env : Environment) where
  abbrev valid_number : Option PhoneNumber → Option String
  valid_number none = none
  valid_number (some p) = if p.is_valid then some p.number else none

  -- Missing where the source throws.
  unfoldable pub normalize_to_e164 : String → String → Option String
  unfolding trim_start trim_end convert_nepali_numerals_to_ascii
  normalize_to_e164 input country = valid_number (
      env.parse_phone_number (convert_nepali_numerals_to_ascii (trim_end (trim_start input)))
        country)

  abbrev pub aes_key : ℕ
  aes_key =
      env.sha256 (env_or env.phone_encryption_secret "default_guffsuff_phone_aes_key_32bytes!!")

  unfoldable pub generate_blind_index : String → ℕ
  generate_blind_index e164_phone = digest_number (
      env.hmac_sha256 (env_or env.phone_hmac_pepper "default_guffsuff_phone_pepper_v1_32chars_len")
        e164_phone)

  -- With the initialisation vector that it draws.
  unfoldable pub encrypt_phone_number : String → List ℕ → List ℕ
  encrypt_phone_number phone iv =
      let sealed = env.aes_256_gcm aes_key iv phone in iv ++ (sealed.1 ++ sealed.0)

  -- Missing where the tag does not authenticate the text.
  unfoldable pub decrypt_phone_number : List ℕ → Option String
  decrypt_phone_number buffer =
      env.aes_256_gcm_open aes_key (first_bytes 12 buffer) (first_bytes 16 (bytes_from 12 buffer))
        (bytes_from 28 buffer)

first_bytes-append : (xs ys : List ℕ) (n : ℕ) → n ≡ length xs → first_bytes n (xs ++ ys) ≡ xs
first_bytes-append [] ys zero h = refl
first_bytes-append [] ys (suc n) h = absurd (omega arith)
first_bytes-append (x ∷ xs) ys zero h = absurd (omega arith)
first_bytes-append (x ∷ xs) ys (suc n) h = ap (◌∷◌ x) (first_bytes-append xs ys n (omega arith))

bytes_from-append :
    (xs ys : List ℕ) (m n : ℕ) → m ≡ length xs + n → bytes_from m (xs ++ ys) ≡ bytes_from n ys
bytes_from-append [] ys m n h = ap (λ k. bytes_from k ys) (omega (arith, h))
bytes_from-append (x ∷ xs) ys zero n h = absurd (omega arith)
bytes_from-append (x ∷ xs) ys (suc m) n h = bytes_from-append xs ys m n (omega arith)

-- The three parts of a buffer.
parts :
    (open_ : List ℕ → List ℕ → List ℕ → Option String) (iv tag ciphertext : List ℕ)
    → length iv ≡ 12
    → length tag ≡ 16
    → open_
        (first_bytes 12 (iv ++ (tag ++ ciphertext)))
        (first_bytes 16 (bytes_from 12 (iv ++ (tag ++ ciphertext))))
        (bytes_from 28 (iv ++ (tag ++ ciphertext)))
      ≡ open_ iv tag ciphertext
parts open_ iv tag ciphertext size tag_size =
    rw
      (
        first_bytes-append iv (tag ++ ciphertext) 12 (omega arith),
        bytes_from-append iv (tag ++ ciphertext) 12 0 (omega arith),
        bytes_from-append iv (tag ++ ciphertext) 28 16 (omega arith),
        first_bytes-append tag ciphertext 16 (omega arith),
        bytes_from-append tag ciphertext 16 0 (omega arith),
      )
      refl

-- Where AES-256-GCM opens what it sealed, with a tag of 16 bytes, a phone number that is encrypted
-- under a vector of 12 bytes decrypts to itself.
pub decrypt-encrypt :
    (env : Environment) (phone : String) (iv : List ℕ)
    → length iv ≡ 12
    → length (env.aes_256_gcm (aes_key env) iv phone).1 ≡ 16
    → env.aes_256_gcm_open
        (aes_key env)
        iv
        (env.aes_256_gcm (aes_key env) iv phone).1
        (env.aes_256_gcm (aes_key env) iv phone).0
      ≡ some phone
    → decrypt_phone_number env (encrypt_phone_number env phone iv) ≡ some phone
unfolding decrypt_phone_number encrypt_phone_number
decrypt-encrypt env phone iv size tag_size opens =
    let sealed = env.aes_256_gcm (aes_key env) iv phone in
    parts (env.aes_256_gcm_open (aes_key env)) iv sealed.1 sealed.0 size tag_size ∙ opens
