-- ===== src/Store/Queue.antt =====
-- dm_outbox as a queue: a message waits from StoreDMPreassigned to the recipient's DeleteDM.
use open_carrier_network.Prelude.{
  ℕ, ◌≤◌, true≢false, ◌≡◌, refl, sym, ap, ◌∙◌, true, false, ◌&&◌, none, some, List, [], ◌∷◌, ◌++◌,
  String, Text, arith, ◌==◌, ◌⊎◌, ◌↔◌, inl, inr, text_eq, string_eq, beq_refl, if◌then◌else◌,
  if-when, ltb,
}
use open_carrier_network.Store.Tables.{OutboxRow, Database}
use open_carrier_network.Store.Outbox.{
  has_message, store_dm_preassigned, rows_for, insert_by_time, by_time, list_pending_dm, find_row,
  get_dm, drop_row, delete_dm,
}

find_row-has_message :
    (id : String) (recipient : Text) (rows : List OutboxRow)
    → has_message id rows ≡ false
    → find_row id recipient rows ≡ none
unfolding find_row has_message
find_row-has_message id recipient [] h = refl
find_row-has_message id recipient (r ∷ rs) h = ground (arith, find_row-has_message id recipient rs)

find_row-snoc :
    (id : String) (recipient : Text) (row : OutboxRow) (rows : List OutboxRow)
    → find_row id recipient rows ≡ none
    → find_row id recipient (rows ++ (row ∷ [])) ≡ find_row id recipient (row ∷ [])
unfolding find_row
find_row-snoc id recipient row [] h = refl
find_row-snoc id recipient row (r ∷ rs) h = ground (arith, find_row-snoc id recipient row rs)

find_row-drop_row :
    (id : String) (recipient : Text) (id' : String) (recipient' : Text) (rows : List OutboxRow)
    → find_row id' recipient' (drop_row id recipient rows)
      ≡ (if (id == id') && (recipient == recipient') then none else find_row id' recipient' rows)
unfolding find_row drop_row
find_row-drop_row id recipient id' recipient' [] = ground arith
find_row-drop_row id recipient id' recipient' (r ∷ rs) = ground (
  arith,
  find_row-drop_row id recipient id' recipient' rs,
  string_eq.same_iff r.message_id id,
  string_eq.same_iff r.message_id id',
  string_eq.same_iff id id',
  text_eq.same_iff r.recipient recipient,
  text_eq.same_iff r.recipient recipient',
  text_eq.same_iff recipient recipient',
)

-- A message that is stored can be fetched by its recipient, sealed as it came; a message whose
-- identifier is in the table already is refused, whatever its recipient.
pub get_dm-store_dm_preassigned :
    (db : Database) (id : String) (recipient : Text) (envelope : List ℕ) (now : ℕ)
    → (has_message id db.dm_outbox ≡ true
        → store_dm_preassigned db id recipient envelope now ≡ none)
      × (has_message id db.dm_outbox ≡ false
          → (after : Database) × (store_dm_preassigned db id recipient envelope now ≡ some after)
            × (get_dm after id recipient
                ≡ some (record {
                  message_id = id;
                  recipient = recipient;
                  envelope = envelope;
                  created_at = now;
                })))
unfolding store_dm_preassigned get_dm find_row
get_dm-store_dm_preassigned db id recipient envelope now = (
  λ old. rw (old, store_dm_preassigned) refl,
  λ fresh. (
    record db { dm_outbox = db.dm_outbox ++ (row ∷ []) },
    rw (fresh, store_dm_preassigned) refl,
    find_row-snoc id recipient row db.dm_outbox
          (find_row-has_message id recipient db.dm_outbox fresh)
        ∙ rw (beq_refl id) (rw (beq_refl recipient) refl),
  ),
)
  where
    row : OutboxRow
    row = record { message_id = id; recipient = recipient; envelope = envelope; created_at = now }

-- An acknowledgement takes out the recipient's message and nothing else: what is fetched after it
-- is as before, but for that identifier and that recipient.
pub get_dm-delete_dm :
    (db : Database) (id : String) (recipient : Text) (id' : String) (recipient' : Text)
    → get_dm (delete_dm db id recipient) id' recipient'
      ≡ (if (id == id') && (recipient == recipient') then none else get_dm db id' recipient')
unfolding get_dm delete_dm
get_dm-delete_dm db id recipient id' recipient' =
    find_row-drop_row id recipient id' recipient' db.dm_outbox

-- A row is among the rows.
abbrev pub IsAmong : OutboxRow → List OutboxRow → Type 0
IsAmong r [] = ⊥
IsAmong r (s ∷ ss) = (s ≡ r) ⊎ IsAmong r ss

-- No row is older than the time.
abbrev NoneBefore : ℕ → List OutboxRow → Type 0
NoneBefore t [] = Unit
NoneBefore t (s ∷ ss) = (t ≤ s.created_at) × NoneBefore t ss

-- The rows stand from the oldest to the newest.
abbrev pub AreByTime : List OutboxRow → Type 0
AreByTime [] = Unit
AreByTime (r ∷ rs) = NoneBefore r.created_at rs × AreByTime rs

NoneBefore-earlier :
    (t u : ℕ) (rows : List OutboxRow) → t ≤ u → NoneBefore u rows → NoneBefore t rows
NoneBefore-earlier t u [] le h = tt
NoneBefore-earlier t u (s ∷ ss) le h = (omega arith, NoneBefore-earlier t u ss le h.1)

insert_by_time-NoneBefore :
    (t : ℕ) (r : OutboxRow) (rows : List OutboxRow)
    → t ≤ r.created_at
    → NoneBefore t rows
    → NoneBefore t (insert_by_time r rows)
unfolding insert_by_time
insert_by_time-NoneBefore t r [] le h = (le, tt)
insert_by_time-NoneBefore t r (s ∷ ss) le h =
    if-when (NoneBefore t) (ltb s.created_at r.created_at) _ _
      (λ e. (h.0, insert_by_time-NoneBefore t r ss le h.1)) λ e. (le, h)

insert_by_time-AreByTime :
    (r : OutboxRow) (rows : List OutboxRow) → AreByTime rows → AreByTime (insert_by_time r rows)
unfolding insert_by_time
insert_by_time-AreByTime r [] h = (tt, tt)
insert_by_time-AreByTime r (s ∷ ss) h =
    if-when AreByTime (ltb s.created_at r.created_at) _ _
      (λ e. (
        insert_by_time-NoneBefore s.created_at r ss (ground arith) h.0,
        insert_by_time-AreByTime r ss h.1,
      ))
      λ e.
        let le : r.created_at ≤ s.created_at = ground arith in
        ((le, NoneBefore-earlier r.created_at s.created_at ss le h.0), h)

by_time-AreByTime : (rows : List OutboxRow) → AreByTime (by_time rows)
unfolding by_time
by_time-AreByTime [] = tt
by_time-AreByTime (r ∷ rs) = insert_by_time-AreByTime r (by_time rs) (by_time-AreByTime rs)

insert_by_time-IsAmong :
    (q r : OutboxRow) (rows : List OutboxRow)
    → IsAmong q (insert_by_time r rows) ↔ IsAmong q (r ∷ rows)
unfolding insert_by_time
insert_by_time-IsAmong q r [] = (λ m. m, λ m. m)
insert_by_time-IsAmong q r (s ∷ ss) =
    let later = insert_by_time-IsAmong q r ss in
    if-when (λ rows. IsAmong q rows ↔ IsAmong q (r ∷ s ∷ ss)) (ltb s.created_at r.created_at) _ _
      (λ e. (
        λ m. elim m [
          | inl here ↦ inr (inl here)
          | inr there ↦ elim (later.0 there) [ inl here ↦ inl here | inr far ↦ inr (inr far) ]
        ],
        λ m. elim m [
          | inl here ↦ inr (later.1 (inl here))
          | inr there ↦ elim there [ inl here ↦ inl here | inr far ↦ inr (later.1 (inr far)) ]
        ],
      ))
      λ e. (λ m. m, λ m. m)

by_time-IsAmong :
    (q : OutboxRow) (rows : List OutboxRow) → IsAmong q (by_time rows) ↔ IsAmong q rows
unfolding by_time
by_time-IsAmong q [] = (λ m. m, λ m. m)
by_time-IsAmong q (r ∷ rs) =
    let sorted = insert_by_time-IsAmong q r (by_time rs) in
    let later = by_time-IsAmong q rs in
    (
      λ m. elim (sorted.0 m) [ inl here ↦ inl here | inr there ↦ inr (later.0 there) ],
      λ m. sorted.1 (elim m [ inl here ↦ inl here | inr there ↦ inr (later.1 there) ]),
    )

rows_for-IsAmong :
    (q : OutboxRow) (recipient : Text) (rows : List OutboxRow)
    → IsAmong q (rows_for recipient rows) ↔ (IsAmong q rows × (q.recipient ≡ recipient))
unfolding rows_for
rows_for-IsAmong q recipient [] = (λ m. absurd m, λ m. absurd m.0)
rows_for-IsAmong q recipient (r ∷ rs) =
    let later = rows_for-IsAmong q recipient rs in
    let same = text_eq.same_iff r.recipient recipient in
    if-when (λ rows. IsAmong q rows ↔ (IsAmong q (r ∷ rs) × (q.recipient ≡ recipient)))
      (r.recipient == recipient) _ _
      (λ e. (
        λ m. elim m [
          | inl here ↦ (inl here, sym (ap (λ (x : OutboxRow). x.recipient) here) ∙ same.0 e)
          | inr there ↦ (inr (later.0 there).0, (later.0 there).1)
        ],
        λ m. elim m.0 [ inl here ↦ inl here | inr there ↦ inr (later.1 (there, m.1)) ],
      ))
      λ e. (
        λ m. (inr (later.0 m).0, (later.0 m).1),
        λ m. elim m.0 [
          | inl here ↦
              absurd
                (true≢false (sym (same.1 (ap (λ (x : OutboxRow). x.recipient) here ∙ m.1)) ∙ e))
          | inr there ↦ later.1 (there, m.1)
        ],
      )

-- ListPendingDM returns the messages in the table whose recipient is the number asked for, and no
-- others, from the oldest to the newest.
pub list_pending_dm_lem :
    (db : Database) (recipient : Text)
    → AreByTime (list_pending_dm db recipient)
      × ((q : OutboxRow)
          → IsAmong q (list_pending_dm db recipient)
            ↔ (IsAmong q db.dm_outbox × (q.recipient ≡ recipient)))
unfolding list_pending_dm
list_pending_dm_lem db recipient = (
  by_time-AreByTime (rows_for recipient db.dm_outbox),
  λ q.
      let sorted = by_time-IsAmong q (rows_for recipient db.dm_outbox) in
      let chosen = rows_for-IsAmong q recipient db.dm_outbox in
      (λ m. chosen.0 (sorted.0 m), λ m. sorted.1 (chosen.1 m)),
)
