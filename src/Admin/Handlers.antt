-- ===== src/Admin/Handlers.antt =====
-- ocnserver/internal/admin/server.go and join.go: the handlers, and requireAuth before them.
use open_carrier_network.Prelude.{ℕ, suc, ◌+◌, ◌*◌, Bool, true, false, not, ◌&&◌, ◌||◌}
use open_carrier_network.Prelude.{Option, none, some, List, [], ◌∷◌, String, Text, ◌==◌}
use open_carrier_network.Prelude.{
  nat_eq, text_eq, string_eq, leb, ltb, length, take, drop, map, keep,
}
use open_carrier_network.Prelude.{if◌then◌else◌}
use open_carrier_network.Numbers.{format_number}
use open_carrier_network.Store.Tables.{User, Token, Database, Status, used}
use open_carrier_network.Store.Users.{update_line, delete_line_by_number}
use open_carrier_network.Store.Users.{number_available, free_number_estimate}
use open_carrier_network.Store.Provision.{ProvisionError, number_taken, new_provision_token}
use open_carrier_network.Store.Provision.{revoke_provision_token, pick_free_numbers}
use open_carrier_network.Store.Provision.{taken_number_set, contains, is_issued}
use open_carrier_network.Admin.Accounts.{verify_admin_login, create_session}
use open_carrier_network.Admin.Accounts.{delete_session, admin_must_change, change_admin_password}
use open_carrier_network.Admin.Panel.{ℤ, pos, negsuc}
use open_carrier_network.Prelude.{leb}
use open_carrier_network.Admin.Panel.{Panel, Options, Outside, Request, Reply, Refusal, LineDto}
use open_carrier_network.Admin.Panel.{LoginBody, PasswordBody, LineBody, ProvisionBody}
use open_carrier_network.Admin.Panel.{
  refused, done, logged_in, who, statistics, lines, numbers, tokens,
}
use open_carrier_network.Admin.Panel.{created, bad_request, invalid_login, internal, account_error}
use open_carrier_network.Admin.Panel.{line_error, token_error, number_conflict, trim_space}
use open_carrier_network.Admin.Panel.{bearer_token, provision_uri}

abbrev pub Answer : Type 0
Answer = Reply × Panel

-- The answer to a change of the tables that either fails or is done.
abbrev pub settle {ℓ} : {E : Type ℓ} → (E → Refusal) → Panel → Database × Option E → Answer
settle on_error p (db, some e) = (refused (on_error e), record p { db = db })
settle on_error p (db, none) = (done, record p { db = db })

-- handleLogin
unfoldable pub handle_login : Outside → Option LoginBody → Panel → Answer
handle_login env none p = (refused bad_request, p)
handle_login env (some b) p =
    let (verdict, a) = verify_admin_login env.fits env.now b.username b.password p.accounts in
    elim verdict [
      | none ↦ (refused invalid_login, record p { accounts = a })
      | some must ↦
          let (made, a2) = create_session env.hash_token env.random_token env.now b.username a in
          elim made [
            | none ↦ (refused internal, record p { accounts = a2 })
            | some token ↦ (logged_in token b.username must, record p { accounts = a2 })
          ]
    ]

-- handleLogout
unfoldable pub handle_logout : Outside → Request → Panel → Answer
handle_logout env r p = (
  done,
  record p { accounts = delete_session env.hash_token (bearer_token r.authorization) p.accounts },
)

-- handleMe; an error of AdminMustChange counts as false.
unfoldable pub handle_me : String → Panel → Answer
handle_me user p = elim (admin_must_change user p.accounts) [
  | none ↦ (who user false, p)
  | some must ↦ (who user must, p)
]

-- handlePassword
unfoldable pub handle_password : Outside → String → Option PasswordBody → Panel → Answer
handle_password env user none p = (refused bad_request, p)
handle_password env user (some b) p =
    let (failure, a) =
      change_admin_password env.fits env.make_hash user b.old_password b.new_password p.accounts in
    elim failure [
      | none ↦ (done, record p { accounts = a })
      | some e ↦ (refused (account_error e), record p { accounts = a })
    ]

-- ProvisionTokenCounts
unfoldable pub count_tokens : (Token → Bool) → List Token → ℕ
count_tokens wanted [] = 0
count_tokens wanted (t ∷ ts) =
    let rest = count_tokens wanted ts in if wanted t then suc rest else rest

abbrev pub is_spent : Status → Bool
is_spent used = true
is_spent _ = false

abbrev pub provision_token_counts : Database → ℕ × ℕ
provision_token_counts db = (
  count_tokens (λ t. is_issued t.status) db.tokens,
  count_tokens (λ t. is_spent t.status) db.tokens,
)

-- handleStats
unfoldable pub handle_stats : Options → Outside → Panel → Answer
handle_stats o env p =
    let (open_tokens, spent) = provision_token_counts p.db in
    (
      statistics (length p.db.users) (length env.online) (free_number_estimate p.db) open_tokens
          spent o.server_name o.area_code,
      p,
    )

-- ORDER BY last_seen DESC
unfoldable pub insert_by_seen : User → List User → List User
insert_by_seen u [] = u ∷ []
insert_by_seen u (v ∷ vs) =
    let rest = insert_by_seen u vs in if leb v.last_seen u.last_seen then u ∷ v ∷ vs else v ∷ rest

unfoldable pub by_last_seen : List User → List User
by_last_seen [] = []
by_last_seen (u ∷ us) = insert_by_seen u (by_last_seen us)

abbrev pub matches : (Text → Text → Bool) → Text → User → Bool
matches like search u = (search == []) || (like search u.number || like search u.display_name)

-- ListLines: the lines that match, those of the page asked for, and how many there are.
unfoldable pub list_lines_of : (Text → Text → Bool) → Database → Text → ℕ → ℕ → List User × ℕ
list_lines_of like db search offset limit =
    let found = keep (matches like search) db.users in
    (take limit (drop offset (by_last_seen found)), length found)

abbrev pub dto : List Text → User → LineDto
dto online u = record {
  number = u.number;
  display_number = format_number u.area_code u.number;
  display_name = u.display_name;
  online = contains u.number online;
  fcm = not (u.fcm_token == "");
  registered_at = u.registered_at;
  last_seen = u.last_seen;
}

abbrev pub page_limit : ℕ → ℕ → ℕ → ℕ
page_limit most standard n = if (n == 0) || ltb most n then standard else n

-- handleListLines
unfoldable pub handle_list_lines : Outside → Text → ℕ → ℕ → Panel → Answer
handle_list_lines env search offset limit p =
    let (users, total) = list_lines_of env.like p.db search offset (page_limit 200 50 limit) in
    (lines (map (dto env.online) users) total, p)

-- handleUpdateLine
unfoldable pub handle_update_line : Text → Option LineBody → Panel → Answer
handle_update_line number none p = (refused bad_request, p)
handle_update_line number (some b) p =
    settle line_error p (update_line p.db number b.display_name b.number)

-- handleDeleteLine
unfoldable pub handle_delete_line : Text → Panel → Answer
handle_delete_line number p = settle line_error p (delete_line_by_number p.db number)

-- handleFreeNumbers, with RandomFreeNumbers
unfoldable pub handle_free_numbers : Outside → ℕ → Panel → Answer
handle_free_numbers env count p =
    (numbers (pick_free_numbers (page_limit 50 12 count) env.draws (taken_number_set p.db)), p)

-- ORDER BY created_at DESC
unfoldable pub insert_by_created : Token → List Token → List Token
insert_by_created t [] = t ∷ []
insert_by_created t (s ∷ ss) =
    let rest = insert_by_created t ss in
    if leb s.created_at t.created_at then t ∷ s ∷ ss else s ∷ rest

unfoldable pub by_created : List Token → List Token
by_created [] = []
by_created (t ∷ ts) = insert_by_created t (by_created ts)

-- handleListProvisions, with ListProvisionTokens
unfoldable pub handle_list_provisions : ℕ → Panel → Answer
handle_list_provisions limit p =
    (tokens (take (page_limit 200 100 limit) (by_created p.db.tokens)), p)

-- The hours that a token is asked to last, within 1 and 720.
unfoldable pub clamp_hours : ℤ → ℕ
clamp_hours (negsuc n) = 24
clamp_hours (pos hours) =
    let asked = if leb hours 0 then 24 else hours in if ltb 720 asked then 720 else asked

-- What handleCreateProvision and handleJoinMint do with a secret: store its hash, and make the link.
unfoldable pub mint :
    Options
    → Outside
    → Request
    → String
    → Text
    → Text
    → String
    → ℕ
    → (ProvisionError → Refusal)
    → Panel
    → Answer
mint o env r creator number name notes ttl on_error p = elim env.random_token [
  | none ↦ (refused internal, p)
  | some secret ↦
      let (db, failure) =
        new_provision_token p.db (env.hash_token secret) number name notes creator env.now ttl in
      elim failure [
        | some e ↦ (refused (on_error e), record p { db = db })
        | none ↦
            let (uri, host) = provision_uri o r secret name in
            if env.renders
            then (created secret uri host (env.now + ttl) number, record p { db = db })
            else (refused internal, record p { db = db })
      ]
]

abbrev pub creation_error : ProvisionError → Refusal
creation_error number_taken = number_conflict
creation_error _ = internal

-- handleCreateProvision
unfoldable pub handle_create_provision :
    Options → Outside → Request → String → Option ProvisionBody → Panel → Answer
handle_create_provision o env r user none p = (refused bad_request, p)
handle_create_provision o env r user (some b) p =
    let number = trim_space b.number in
    let ttl = clamp_hours b.valid_hours * 3600 in
    if not (number == []) && not (number_available p.db number)
    then (refused number_conflict, p)
    else mint o env r user number b.display_name b.notes ttl creation_error p

-- handleRevokeProvision
unfoldable pub handle_revoke_provision : String → Panel → Answer
handle_revoke_provision id p = settle token_error p (revoke_provision_token p.db id)

-- handleJoinMint, which needs no session.
unfoldable pub handle_join_mint : Options → Outside → Request → Option Text → Panel → Answer
handle_join_mint o env r none p = (refused bad_request, p)
handle_join_mint o env r (some name) p =
    let trimmed = trim_space name in
    let short = if ltb 60 (length trimmed) then take 60 trimmed else trimmed in
    mint o env r "web" [] short "web join" 86400 (λ e. internal) p
