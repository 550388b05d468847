-- ===== src/Store/Tests.antt =====
-- The theorems on the database, applied to two activation tokens and three messages.
use open_carrier_network.Prelude.{
  ℕ, ◌≡◌, ◌↔◌, refl, arith, true, false, Option, none, some, [], ◌∷◌, String, Text, codes, text_beq,
  text_eq, string_eq,
}
use open_carrier_network.Numbers.{decimal}
use open_carrier_network.Store.Tables.{User, issued, Token, OutboxRow, Database}
use open_carrier_network.Store.Provision.{
  Attempt, line, failed, token_used, contains, provision_user, taken_number_set, auto_assign,
  user_numbers, reservations,
}
use open_carrier_network.Store.Outbox.{
  has_message, store_dm_preassigned, list_pending_dm, get_dm, delete_dm,
}
use open_carrier_network.Store.Activation.{IsSettled, provision_user-IsSettled, provision_user-once}
use open_carrier_network.Store.Picks.{IsNobodys, IsUnreserved, auto_assign-free, auto_assign-line}
use open_carrier_network.Store.Queue.{
  get_dm-store_dm_preassigned, get_dm-delete_dm, IsAmong, AreByTime, list_pending_dm_lem,
}

abbrev carol : User
carol = record {
  ksim_public_key = "carol";
  area_code = codes "440";
  number = codes "1000000";
  display_name = [];
  fcm_token = "";
  registered_at = 0;
  last_seen = 0;
}

abbrev token : Option Text → Token
token number = record {
  token_hash = "hash";
  number = number;
  display_name = codes "desk";
  notes = "";
  created_by = "admin";
  created_at = 10;
  expires_at = 1000;
  status = issued;
  claimed_pub_key = none;
  claimed_at = none;
}

abbrev letter : String → Text → ℕ → OutboxRow
letter id recipient at = record {
  message_id = id;
  recipient = recipient;
  envelope = 1 ∷ 2 ∷ [];
  created_at = at;
}

abbrev office : Database
office = record {
  users = carol ∷ [];
  tokens = token (some (codes "5551234")) ∷ [];
  dm_outbox =
      letter "m1" (codes "1000000") 30
      ∷ letter "m2" (codes "1000001") 10
      ∷ letter "m3" (codes "1000000") 20
      ∷ [];
  voicemail = [];
}

abbrev attempts : ℕ → Attempt
attempts i = record { now = 500; draws = 7 ∷ [] }

abbrev opened : Database
opened = (provision_user office "hash" "dave" (codes "440") (codes "Dave") attempts).0

dave_has_a_line :
    provision_user office "hash" "dave" (codes "440") (codes "Dave") attempts
    ≡ (opened, line (codes "5551234"))
unfolding provision_user
dave_has_a_line = refl

provision_user-IsSettled_example :
    IsSettled office "hash" "dave"
      (codes "440")
      (codes "Dave")
      attempts
      (provision_user office "hash" "dave" (codes "440") (codes "Dave") attempts)
provision_user-IsSettled_example =
    provision_user-IsSettled office "hash" "dave" (codes "440") (codes "Dave") attempts

provision_user-once_example :
    provision_user opened "hash" "eve" (codes "440") (codes "Eve") attempts
    ≡ (opened, failed token_used)
provision_user-once_example =
    provision_user-once office opened "hash" "dave" "eve" (codes "440") (codes "Dave") (codes "440")
      (codes "Eve") (codes "5551234") attempts attempts dave_has_a_line

seven_is_drawn : auto_assign office (0 ∷ 7 ∷ []) ≡ line (codes "1000007")
unfolding auto_assign text_beq decimal
seven_is_drawn = refl

auto_assign-free_example :
    IsNobodys (codes "1000007") office.users × IsUnreserved (codes "1000007") office.tokens
auto_assign-free_example = auto_assign-free office (0 ∷ 7 ∷ []) (codes "1000007") seven_is_drawn

auto_assign-line_example : (num : Text) × (auto_assign office (0 ∷ []) ≡ line num)
unfolding decimal
auto_assign-line_example = auto_assign-line office (0 ∷ []) 1 (omega arith) second_free
  where
    second_free : contains (codes "1000001") (taken_number_set office) ≡ false
    second_free = unfold contains taken_number_set user_numbers reservations text_beq in refl

get_dm-store_dm_preassigned_example :
    (has_message "m4" office.dm_outbox ≡ true
      → store_dm_preassigned office "m4" (codes "1000000") (3 ∷ []) 40 ≡ none)
    × (has_message "m4" office.dm_outbox ≡ false
        → (after : Database) × (store_dm_preassigned office "m4" (codes "1000000") (3 ∷ []) 40
            ≡ some after)
          × (get_dm after "m4" (codes "1000000")
              ≡ some (record {
                message_id = "m4";
                recipient = codes "1000000";
                envelope = 3 ∷ [];
                created_at = 40;
              })))
get_dm-store_dm_preassigned_example =
    get_dm-store_dm_preassigned office "m4" (codes "1000000") (3 ∷ []) 40

get_dm-delete_dm_example :
    get_dm (delete_dm office "m1" (codes "1000000")) "m3" (codes "1000000")
    ≡ get_dm office "m3" (codes "1000000")
get_dm-delete_dm_example = get_dm-delete_dm office "m1" (codes "1000000") "m3" (codes "1000000")

list_pending_dm_lem_example :
    AreByTime (list_pending_dm office (codes "1000000"))
    × ((q : OutboxRow)
        → IsAmong q (list_pending_dm office (codes "1000000"))
          ↔ (IsAmong q office.dm_outbox × (q.recipient ≡ codes "1000000")))
list_pending_dm_lem_example = list_pending_dm_lem office (codes "1000000")
