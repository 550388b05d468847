-- ===== src/Voicemail/Manager.antt =====
-- ocnserver/internal/voicemail/manager.go and secret.go: messages sealed under a key of their mailbox,
-- which comes from a secret of the server. The key derivation, AES-GCM and base64 are parameters.
use open_carrier_network.Prelude.{ℕ, ◌*◌, ◌/◌, Bool, true, false, Option, none, some, List, []}
use open_carrier_network.Prelude.{String, Text, length, ◌==◌, nat_eq, if◌then◌else◌, ◌>>=◌}
use open_carrier_network.Store.Tables.{Database, VoicemailRow}
use open_carrier_network.Store.Mailbox.{store_voicemail}
use open_carrier_network.Store.Settings.{Settings, get_setting, set_setting}
use open_carrier_network.Voicemail.Frames.{serialize_frames, deserialize_frames}
use open_carrier_network.Voicemail.Ogg.{build_ogg, frame_ms}

pub record Crypt : Type 0 where
  pub derive_key : Text → Text → Text
  pub encrypt : Text → Text → Option Text
  pub decrypt : Text → Text → Option Text
  pub encode : Text → Text
  pub decode : Text → Option Text

-- Manager, with the parts of the store that it uses.
pub record Manager : Type 0 where
  pub db : Database
  pub settings : Settings
  pub master : Option Text

abbrev pub master_secret_key : String
master_secret_key = "voicemail_master_secret"

abbrev pub not_empty : Text → Bool
not_empty [] = false
not_empty _ = true

module _ (c : Crypt) where
  -- EnsureMasterSecret, with 32 random bytes or the error of the random source.
  unfoldable pub ensure_master_secret : Option Text → Manager → Option Manager
  ensure_master_secret random m =
      let enc = get_setting master_secret_key m.settings in
      if not_empty enc
      then (elim (c.decode enc) [ none ↦ none | some key ↦ some (record m { master = some key }) ])
      else (elim random [
        | none ↦ none
        | some key ↦ some (record m {
          settings = set_setting master_secret_key (c.encode key) m.settings;
          master = some key;
        })
      ])

  -- key: the manager that holds the secret, and the key of the mailbox.
  unfoldable pub mailbox_key : Option Text → Text → Manager → Option (Manager × Text)
  mailbox_key random recipient m = elim m.master [
    | some key ↦ some (m, c.derive_key key recipient)
    | none ↦ ensure_master_secret random m >>= λ n. with_key n n.master
  ]
    where
      with_key : Manager → Option Text → Option (Manager × Text)
      with_key n none = none
      with_key n (some key) = some (n, c.derive_key key recipient)

  -- StoreMessage, with the identifier that uuid makes, and whether the database answers.
  unfoldable pub store_message :
      Option Text → Bool → String → ℕ → Text → Text → Text → List Text → Manager → Option Manager
  store_message random answers id now recipient caller name frames m =
      if length frames == 0 then none else (do
        (n, key) ← mailbox_key random recipient m
        blob ← c.encrypt key (serialize_frames frames)
        db ←
            store_voicemail answers n.db id recipient caller name blob
              (length frames * frame_ms / 1000) now
        some (record n { db = db }))

  -- RenderOgg
  unfoldable pub render_ogg : Option Text → Text → VoicemailRow → Manager → Option Text
  render_ogg random recipient row m = do
    (n, key) ← mailbox_key random recipient m
    plain ← c.decrypt key row.encrypted_audio
    frames ← deserialize_frames plain
    if length frames == 0 then none else build_ogg frames
