-- ===== src/Realtime.antt =====
-- services/realtime/src/realtime.gateway.ts. A handler is given by the calls that it makes on the
-- socket and on the server; what socket.io does with them is not modelled. The credentials of a
-- handshake are strings where they are present.
pub mod Rooms
use text.Mathlib.Text.{◌==◌ as str_eq}
use guff_suff.Prelude.{
  ℕ, String, Bool, true, false, Option, none, some, List, [], ◌∷◌, ◌||◌, if◌then◌else◌,
}
use guff_suff.Text.{concat}
use guff_suff.Environment.{Environment}
use guff_suff.Json.{Body}
use guff_suff.Contracts.{realtime_event_envelope_schema}

-- client.handshake.auth
pub record Handshake : Type 0 where
  pub token : Option String
  pub device_id : Option String
  pub user_id : Option String

pub data IdentityEvent : Type 0 where
  device_revoked session_revoked security_alert : IdentityEvent

-- The events, with the fields that a client reads; P is the type of a payload.
pub data Event (P : Type 0) : Type 0 where
  identity_event : IdentityEvent → P → ℕ → Event P
  message_delivery : P → ℕ → Event P
  -- to the device that sent a message, and in answer to a client's own event
  message_accepted : P → ℕ → Event P
  submit_accepted : ℕ → ℕ → ℕ → Event P
  message_status : ℕ → String → ℕ → Event P
  protocol_error : String → String → Event P

pub data Call (P : Type 0) : Type 0 where
  -- client.disconnect(true), client.join(room), client.emit(...)
  disconnect : Call P
  join : String → Call P
  reply : Event P → Call P
  -- server.to(room).emit(...)
  emit : String → Event P → Call P

abbrev pub user_room : String → String
user_room user_id = concat "user_" user_id

abbrev pub device_room : String → String
device_room device_id = concat "device_" device_id

-- `!value`
abbrev is_absent : Option String → Bool
is_absent none = true
is_absent (some s) = str_eq s ""

module _ {P : Type 0} where
  -- The calls where all three are there.
  abbrev joins : Option String → Option String → List (Call P)
  joins (some device_id) (some user_id) =
      join (user_room user_id) ∷ join (device_room device_id) ∷ []
  joins _ _ = disconnect ∷ []

  unfoldable pub handle_connection : Handshake → List (Call P)
  handle_connection auth =
      if is_absent auth.token || (is_absent auth.device_id || is_absent auth.user_id)
      then disconnect ∷ []
      else joins auth.device_id auth.user_id

  -- `started` is whether the server is set.
  unfoldable pub send_identity_notification : Bool → String → IdentityEvent → P → ℕ → List (Call P)
  send_identity_notification started user_id event_type payload now =
      if started then emit (user_room user_id) (identity_event event_type payload now) ∷ [] else []

  unfoldable pub send_delivery_event : Bool → String → P → ℕ → List (Call P)
  send_delivery_event started recipient_device_id payload now =
      if started
      then emit (device_room recipient_device_id) (message_delivery payload now) ∷ []
      else []

  unfoldable pub send_accepted_event : Bool → String → P → ℕ → List (Call P)
  send_accepted_event started sender_device_id payload now =
      if started
      then emit (device_room sender_device_id) (message_accepted payload now) ∷ []
      else []

  -- The answer to an event of a client: `parsed` is the outcome of `safeParse`.
  abbrev pub answered : Option (ℕ × ℕ) → (ℕ × ℕ → Event P) → List (Call P)
  answered none accept =
      reply (protocol_error "INVALID_EVENT_FORMAT" "Schema validation failed") ∷ []
  answered (some ids) accept = reply (accept ids) ∷ []

  module _ (env : Environment) where
    unfoldable pub handle_client_message_submit : Body → ℕ → List (Call P)
    handle_client_message_submit data_ now =
        answered (realtime_event_envelope_schema env data_) (λ ids. submit_accepted ids.0 ids.1 now)

    unfoldable pub handle_client_message_delivered : Body → ℕ → List (Call P)
    handle_client_message_delivered data_ now =
        answered (realtime_event_envelope_schema env data_)
          (λ ids. message_status ids.0 "delivered" now)

    unfoldable pub handle_client_message_read : Body → ℕ → List (Call P)
    handle_client_message_read data_ now =
        answered (realtime_event_envelope_schema env data_) (λ ids. message_status ids.0 "read" now)
