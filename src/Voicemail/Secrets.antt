-- ===== src/Voicemail/Secrets.antt =====
-- Lemmas on the secret of manager.go of ocnserver/internal/voicemail, across a restart.
use open_carrier_network.Prelude.{Option, none, some, Text}
use open_carrier_network.Prelude.{if-when, Option-when, bind-when, ◌≡◌, refl}
use open_carrier_network.Prelude.{string_eq, subst}
use open_carrier_network.Store.Settings.{get_setting, set_setting}
use open_carrier_network.Store.Saved.{get_setting-insert}
use open_carrier_network.Voicemail.Manager.{Crypt, Manager, master_secret_key, not_empty}
use open_carrier_network.Voicemail.Manager.{ensure_master_secret, mailbox_key}
use open_carrier_network.Voicemail.Recall.{IsReversible, Holds, IsReady, IsSeed, restart}

-- The manager has a secret that the settings hold, and the mailboxes are the same.
abbrev pub IsEnsured : Crypt → Manager → Option Manager → Type 0
IsEnsured c m none = Unit
IsEnsured c m (some n) =
    (key : Text) × (n.master ≡ some key) × Holds c key n.settings × (n.db ≡ m.db)

-- So with the key of a mailbox.
abbrev pub IsKeyed : Crypt → Text → Manager → Option (Manager × Text) → Type 0
IsKeyed c recipient m none = Unit
IsKeyed c recipient m (some (n, k)) =
    (key : Text) × (k ≡ c.derive_key key recipient) × Holds c key n.settings × (n.db ≡ m.db)

ensure_master_secret-IsEnsured :
    (c : Crypt) (random : Option Text) (m : Manager)
    → IsReversible c
    → IsSeed c random
    → IsEnsured c m (ensure_master_secret c random m)
unfolding ensure_master_secret
ensure_master_secret-IsEnsured c random m (_, decodes) seed =
    if-when Ensured (not_empty (get_setting master_secret_key m.settings)) _ _
      (λ filled.
        Option-when Ensured (c.decode (get_setting master_secret_key m.settings)) none _
          (λ corrupt. tt) (λ key read. (key, refl, (read, filled), refl)))
      (λ empty. made random seed)
  where
    Ensured : Option Manager → Type 0
    Ensured = IsEnsured c m

    stored :
        (key : Text)
        → get_setting master_secret_key (set_setting master_secret_key (c.encode key) m.settings)
          ≡ c.encode key
    stored key = get_setting-insert master_secret_key master_secret_key (c.encode key) m.settings

    made :
        (r : Option Text)
        → IsSeed c r
        → Ensured (elim r [
          | none ↦ none
          | some key ↦ some (record m {
            settings = set_setting master_secret_key (c.encode key) m.settings;
            master = some key;
          })
        ])
    made none seed = tt
    made (some key) seed = (key, refl, (rw (stored key) (decodes key), rw (stored key) seed), refl)

pub mailbox_key-IsKeyed :
    (c : Crypt) (random : Option Text) (recipient : Text) (m : Manager)
    → IsReversible c
    → IsSeed c random
    → IsReady c m.master m.settings
    → IsKeyed c recipient m (mailbox_key c random recipient m)
unfolding mailbox_key
mailbox_key-IsKeyed c random recipient m sound seed ready =
    Option-when Keyed m.master _ _
      (λ unloaded.
        bind-when Keyed (ensure_master_secret c random m) _ (λ failed. tt)
          (λ n ensured.
            loaded n (
              subst (IsEnsured c m) ensured
                (ensure_master_secret-IsEnsured c random m sound seed))))
      (λ key same. (key, refl, subst (λ o. IsReady c o m.settings) same ready, refl))
  where
    Keyed : Option (Manager × Text) → Type 0
    Keyed = IsKeyed c recipient m

    loaded :
        (n : Manager)
        → IsEnsured c m (some n)
        → Keyed (elim n.master [ none ↦ none | some key ↦ some (n, c.derive_key key recipient) ])
    loaded n (key, same, held, db) = rw same (key, refl, held, db)

-- After a restart the same key comes back from the settings.
pub mailbox_key-restart :
    (c : Crypt) (random : Option Text) (recipient key : Text) (m : Manager)
    → Holds c key m.settings
    → mailbox_key c random recipient (restart m)
      ≡ some (record m { master = some key }, c.derive_key key recipient)
unfolding mailbox_key ensure_master_secret
mailbox_key-restart c random recipient key m (read, filled) = rw (filled, read) refl
