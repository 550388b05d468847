-- ===== src/Store/Tables.antt =====
-- The schema of ocnserver/internal/store/store.go. A time is in seconds since the epoch. A key that
-- is only compared is a `String`; a number or an area code is taken apart, and is a `Text`.
use open_carrier_network.Prelude.{ℕ, Bool, Option, List, String, Text}

-- User, a row of `users`.
pub record User : Type 0 where
  pub ksim_public_key : String
  pub area_code : Text
  pub number : Text
  pub display_name : Text
  pub fcm_token : String
  pub registered_at : ℕ
  pub last_seen : ℕ

-- The column `status`; `unknown` is any text that the program never writes.
pub data Status : Type 0 where
  issued used revoked unknown : Status

-- ProvisionToken, a row of `provisioning_tokens`.
pub record Token : Type 0 where
  pub token_hash : String
  pub number : Option Text
  pub display_name : Text
  pub notes : String
  pub created_by : String
  pub created_at : ℕ
  pub expires_at : ℕ
  pub status : Status
  pub claimed_pub_key : Option String
  pub claimed_at : Option ℕ

-- DMMessage, a row of `dm_outbox`. The envelope is sealed.
pub record OutboxRow : Type 0 where
  pub message_id : String
  pub recipient : Text
  pub envelope : List ℕ
  pub created_at : ℕ

-- Voicemail, a row of `voicemail`.
pub record VoicemailRow : Type 0 where
  pub id : String
  pub caller_number : Text
  pub caller_name : Text
  pub recipient_number : Text
  pub encrypted_audio : List ℕ
  pub duration_seconds : ℕ
  pub listened : Bool
  pub created_at : ℕ

pub record Database : Type 0 where
  pub users : List User
  pub tokens : List Token
  pub dm_outbox : List OutboxRow
  pub voicemail : List VoicemailRow
