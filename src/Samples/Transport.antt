-- ===== src/Samples/Transport.antt =====
-- Requests on the routes of the transport, and scans of directories.
use guff_suff.Prelude.{◌≡◌, ◌↔◌, String, Option, some, none, List, [], ◌∷◌, All}
use guff_suff.Json.{Json, Body}
use guff_suff.Api.Transport.{Request, respond}
use guff_suff.Api.Transport.Unreached.{IsEmpty, respond-IsEmpty}
use guff_suff.Scan.{
  Entries, file, dir, end, entry, skips_in_sources, is_source, symbols_in, scan_mock_crypto,
}
use guff_suff.Scan.Complete.{IsClean, scan_mock_crypto_iff}
use guff_suff.Samples.Messages.{env, db, submission_at}

abbrev header : Option (List String)
header = some ("Bearer" ∷ "token" ∷ [])

abbrev body : Body
body =
    ("idempotencyKey", Json.string "key")
    ∷ ("recipientUserId", Json.string "22")
    ∷ ("opaquePayloadBase64", Json.string "aGVsbG8=")
    ∷ ("clientCreatedAt", Json.string "900")
    ∷ ("expiresAt", Json.string "90000")
    ∷ []

abbrev submission : Request
submission = Request.submit "700" body (submission_at 1000)

respond-IsEmpty_example : IsEmpty db (respond env header 2000 submission db)
respond-IsEmpty_example = respond-IsEmpty env header 2000 submission db

-- A mock below a directory that is skipped, and a source file without one.
abbrev sources : Entries
sources =
    entry "index.ts" (file "export class Session {}")
      (entry "dist" (dir (entry "mock.js" (file "MockCryptoProvider") end)) end)

scan_mock_crypto_iff_example :
    (scan_mock_crypto (some sources) none none ≡ 0)
    ↔ All (IsClean skips_in_sources is_source symbols_in) (some sources ∷ none ∷ none ∷ [])
scan_mock_crypto_iff_example = scan_mock_crypto_iff (some sources) none none
