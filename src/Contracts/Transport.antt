-- ===== src/Contracts/Transport.antt =====
-- The schemas of packages/contracts/src/index.ts for the transport of envelopes.
use guff_suff.Prelude.{ℕ, Option, some}
use guff_suff.Environment.{Environment}
use guff_suff.Json.{Json, Body, field}
use guff_suff.Contracts.{◌>>=◌, pure, string_schema, string_between, positive, uuid}
use guff_suff.Envelope.{SubmitMessageEnvelope}

-- .default(1)
abbrev protocol_version_schema : Json → Option ℕ
protocol_version_schema Json.missing = some 1
protocol_version_schema value = positive value

module _ (env : Environment) where
  abbrev datetime : Json → Option ℕ
  datetime value = string_schema value >>= env.parse_datetime

  unfoldable pub create_direct_conversation_schema : Body → Option ℕ
  create_direct_conversation_schema body = uuid env (field "recipientUserId" body)

  unfoldable pub submit_message_envelope_schema : Body → Option SubmitMessageEnvelope
  submit_message_envelope_schema body = do
    idempotency_key ← string_between 1 64 (field "idempotencyKey" body)
    conversation_id ← uuid env (field "conversationId" body)
    recipient_user_id ← uuid env (field "recipientUserId" body)
    protocol_version ← protocol_version_schema (field "protocolVersion" body)
    opaque_payload_base64 ← string_between 1 87382 (field "opaquePayloadBase64" body)
    client_created_at ← datetime (field "clientCreatedAt" body)
    expires_at ← datetime (field "expiresAt" body)
    pure (record {
      idempotency_key = idempotency_key;
      conversation_id = conversation_id;
      recipient_user_id = recipient_user_id;
      protocol_version = protocol_version;
      opaque_payload_base64 = opaque_payload_base64;
      client_created_at = client_created_at;
      expires_at = expires_at;
    })

  unfoldable pub acknowledge_read_schema : Body → Option ℕ
  acknowledge_read_schema body = uuid env (field "lastReadEnvelopeId" body)
