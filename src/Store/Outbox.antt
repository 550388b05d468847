-- ===== src/Store/Outbox.antt =====
-- ocnserver/internal/store/dm.go: the messages that wait for their recipient, sealed. Rows stand in
-- the order of insertion.
use open_carrier_network.Prelude.{
  ℕ, Bool, true, false, ◌&&◌, Option, none, some, List, [], ◌∷◌, ◌++◌, String, Text, ◌==◌, text_eq,
  string_eq, if◌then◌else◌, ltb,
}
use open_carrier_network.Store.Tables.{OutboxRow, Database}

unfoldable pub has_message : String → List OutboxRow → Bool
has_message id [] = false
has_message id (r ∷ rs) = if r.message_id == id then true else has_message id rs

-- StoreDMPreassigned; `none` is the error of the primary key.
unfoldable pub store_dm_preassigned : Database → String → Text → List ℕ → ℕ → Option Database
unfolding has_message
store_dm_preassigned db id recipient envelope now =
    if has_message id db.dm_outbox
    then none
    else some (record db { dm_outbox = db.dm_outbox ++ (row ∷ []) })
  where
    row : OutboxRow
    row = record { message_id = id; recipient = recipient; envelope = envelope; created_at = now }

-- WHERE recipient = ?
unfoldable pub rows_for : Text → List OutboxRow → List OutboxRow
rows_for recipient [] = []
rows_for recipient (r ∷ rs) =
    let rest = rows_for recipient rs in if r.recipient == recipient then r ∷ rest else rest

-- ORDER BY created_at ASC; rows of one second keep their order.
unfoldable pub insert_by_time : OutboxRow → List OutboxRow → List OutboxRow
insert_by_time r [] = r ∷ []
insert_by_time r (s ∷ ss) =
    if ltb s.created_at r.created_at then s ∷ insert_by_time r ss else r ∷ s ∷ ss

unfoldable pub by_time : List OutboxRow → List OutboxRow
unfolding insert_by_time
by_time [] = []
by_time (r ∷ rs) = insert_by_time r (by_time rs)

-- ListPendingDM
unfoldable pub list_pending_dm : Database → Text → List OutboxRow
unfolding rows_for by_time
list_pending_dm db recipient = by_time (rows_for recipient db.dm_outbox)

unfoldable pub find_row : String → Text → List OutboxRow → Option OutboxRow
find_row id recipient [] = none
find_row id recipient (r ∷ rs) =
    if (r.message_id == id) && (r.recipient == recipient) then some r else find_row id recipient rs

-- GetDM
unfoldable pub get_dm : Database → String → Text → Option OutboxRow
unfolding find_row
get_dm db id recipient = find_row id recipient db.dm_outbox

unfoldable pub drop_row : String → Text → List OutboxRow → List OutboxRow
drop_row id recipient [] = []
drop_row id recipient (r ∷ rs) =
    let rest = drop_row id recipient rs in
    if (r.message_id == id) && (r.recipient == recipient) then rest else r ∷ rest

-- DeleteDM
unfoldable pub delete_dm : Database → String → Text → Database
unfolding drop_row
delete_dm db id recipient = record db { dm_outbox = drop_row id recipient db.dm_outbox }

unfoldable pub drop_before : ℕ → List OutboxRow → List OutboxRow
drop_before before [] = []
drop_before before (r ∷ rs) =
    let rest = drop_before before rs in if ltb r.created_at before then rest else r ∷ rest

-- PruneDM
unfoldable pub prune_dm : Database → ℕ → Database
unfolding drop_before
prune_dm db before = record db { dm_outbox = drop_before before db.dm_outbox }
