-- ===== src/Connector/Accounts/Query.antt =====
-- The methods of EmailAccountQuery in pkg/connector/database.go. A method that cannot encrypt answers
-- `none`.
use matrimail.Prelude.{
  Bool, List, Option, [], if◌then◌else◌, ltb, none, not, some, text_eq, ◌+◌, ◌-◌, ◌==◌, ◌||◌, Text,
  ℕ,
}
use matrimail.Prelude.Int.{ℤ, pos, negsuc}
use matrimail.Email.Threading.{is_empty}
use matrimail.Connector.Accounts.{
  EmailAccount, Row, Codec, Decrypted, plain, refused, encrypt_string, decrypt_string, select,
  update_row, insert_or_update, monitored_folders_json, folders_from_json, auth_oauth_gmail,
  auth_needs_reauth, provider_google, scope_modify, scope_full, inbox_json,
}

-- COALESCE(column, default)
abbrev pub coalesce {ℓ} : {A : Type ℓ} → Option A → A → A
coalesce none d = d
coalesce (some a) d = a

-- the part of oauth2.Token that is stored
pub record Token : Type 0 where
  pub access_token : Text
  pub refresh_token : Text
  pub expiry : Option ℕ

-- OAuthAccountInfo
pub record OAuthAccountInfo : Type 0 where
  pub auth_type : Text
  pub provider : Text
  pub scope_mode : Text
  pub token : Option Token
  pub issued_at : Option ℕ

pub data Loaded {ℓ} (A : Type ℓ) : Type ℓ where
  missing : Loaded A
  -- an error, and what is returned beside it
  unreadable : Option A → Loaded A
  found : A → Loaded A

abbrev pub or_zero : Option ℕ → ℕ
or_zero none = 0
or_zero (some n) = n

-- a time from nanoseconds, the zero time for 0
abbrev pub time_of : ℕ → Option ℕ
time_of n = if n == 0 then none else some n

-- UPDATE of SaveOAuthTokenWithScope
unfoldable pub logged_in : Text → Text → Text → Text → ℕ → ℕ → Row → Row
logged_in provider refresh access scope expiry now r = record r {
  auth_type = auth_oauth_gmail;
  oauth_provider = some provider;
  oauth_refresh_token = some refresh;
  oauth_access_token = some access;
  oauth_expiry = some expiry;
  scope_mode = some scope;
  oauth_token_issued_at = some now;
  last_reauth_notice_at = some 0;
}

-- UPDATE of SaveOAuthToken
unfoldable pub refreshed : Text → Text → Text → ℕ → Row → Row
refreshed provider refresh access expiry r = record r {
  auth_type = auth_oauth_gmail;
  oauth_provider = some provider;
  oauth_refresh_token = some refresh;
  oauth_access_token = some access;
  oauth_expiry = some expiry;
}

abbrev pub or_google : Text → Text
or_google provider = if is_empty provider then provider_google else provider

abbrev pub or_modify : Text → Text
or_modify scope = if is_empty scope then scope_modify else scope

-- the rows, if there was one to change
abbrev pub affected : Option Row → List Row → Option (List Row)
affected none rows = none
affected (some r) rows = some rows

abbrev pub is_oauth : Text → Bool
is_oauth t = text_eq t auth_oauth_gmail || text_eq t auth_needs_reauth

abbrev text_or_empty : Decrypted → Text
text_or_empty (plain s) = s
text_or_empty (refused e) = []

-- int64(historyID) of a uint64
abbrev two_63 : ℕ
two_63 = 9223372036854775808

unfoldable pub to_int64 : ℕ → ℤ
to_int64 n = if ltb n two_63 then pos n else negsuc (two_63 + two_63 - n - 1)

module _ (k : Codec) where
  unfoldable pub encrypted :
      Option Text → Option Text → (Text → Text → List Row) → Option (List Row)
  encrypted none access f = none
  encrypted (some refresh) none f = none
  encrypted (some refresh) (some access) f = some (f refresh access)

  unfoldable pub after_update : Text → Text → List Row → Option (List Row) → Option (List Row)
  unfolding select
  after_update user email rows none = none
  after_update user email rows (some changed) = affected (select user email rows) changed

  -- SaveOAuthTokenWithScope, with the two nonces; `none` too if there is no such row
  unfoldable pub save_oauth_token_with_scope :
      Option Text
      → Option Text
      → ℕ
      → Text
      → Text
      → Text
      → Text
      → Token
      → List Row
      → Option (List Row)
  unfolding encrypted after_update encrypt_string update_row logged_in
  save_oauth_token_with_scope n1 n2 now user email provider scope tok rows =
      after_update user email rows (
        encrypted (encrypt_string k n1 tok.refresh_token) (encrypt_string k n2 tok.access_token)
          (λ refresh access.
            update_row user email
              (logged_in (or_google provider) refresh access (or_modify scope) (or_zero tok.expiry)
                now)
              rows))

  -- SaveOAuthToken
  unfoldable pub save_oauth_token :
      Option Text → Option Text → Text → Text → Text → Token → List Row → Option (List Row)
  unfolding encrypted after_update encrypt_string update_row refreshed
  save_oauth_token n1 n2 user email provider tok rows = after_update user email rows (
      encrypted (encrypt_string k n1 tok.refresh_token) (encrypt_string k n2 tok.access_token)
        (λ refresh access.
          update_row user email (refreshed (or_google provider) refresh access (or_zero tok.expiry))
            rows))

  unfoldable pub token_of : Decrypted → Text → ℕ → Option Token
  token_of (refused e) access expiry = none
  token_of (plain refresh) access expiry =
      some (record { access_token = access; refresh_token = refresh; expiry = time_of expiry })

  unfoldable pub beside_token : OAuthAccountInfo → Option Token → Loaded OAuthAccountInfo
  beside_token info none = unreadable (some info)
  beside_token info (some t) = found (record info { token = some t })

  unfoldable pub access_of : Text → Text
  unfolding decrypt_string
  access_of stored = if is_empty stored then [] else text_or_empty (decrypt_string k stored)

  -- the account in OAuth mode, `missing` for any other
  unfoldable pub oauth_info : Option Row → Loaded OAuthAccountInfo
  unfolding token_of beside_token access_of decrypt_string
  oauth_info none = missing
  oauth_info (some r) =
      let refresh = coalesce r.oauth_refresh_token [] in
      let scope = coalesce r.scope_mode [] in
      let info : OAuthAccountInfo = record {
        auth_type = r.auth_type;
        provider = coalesce r.oauth_provider [];
        scope_mode = if is_empty scope then scope_full else scope;
        token = none;
        issued_at = time_of (or_zero r.oauth_token_issued_at);
      } in
      if not (is_oauth r.auth_type)
      then missing
      else if is_empty refresh
      then found info
      else beside_token info (
          token_of (decrypt_string k refresh) (access_of (coalesce r.oauth_access_token []))
            (or_zero r.oauth_expiry))

  -- GetOAuthAccount
  unfoldable pub get_oauth_account : Text → Text → List Row → Loaded OAuthAccountInfo
  unfolding oauth_info select
  get_oauth_account user email rows = oauth_info (select user email rows)

  unfoldable pub account_with : Row → Decrypted → Loaded EmailAccount
  unfolding folders_from_json
  account_with r (refused e) = unreadable none
  account_with r (plain password) = found (record {
    user_mxid = r.user_mxid;
    email = r.email;
    username = r.username;
    password = password;
    host = r.host;
    port = r.port;
    tls = r.tls;
    created_at = r.created_at;
    last_sync_time = r.last_sync_time;
    monitored_folders = folders_from_json k (coalesce r.monitored_folders inbox_json);
    auth_type = r.auth_type;
  })

  unfoldable pub account_of_row : Option Row → Loaded EmailAccount
  unfolding account_with decrypt_string
  account_of_row none = missing
  account_of_row (some r) = account_with r (decrypt_string k r.password)

  -- GetAccount
  unfoldable pub get_account : Text → Text → List Row → Loaded EmailAccount
  unfolding account_of_row select
  get_account user email rows = account_of_row (select user email rows)

  unfoldable pub upsert_encrypted : EmailAccount → Option Text → List Row → Option (List Row)
  unfolding insert_or_update monitored_folders_json
  upsert_encrypted a none rows = none
  upsert_encrypted a (some password) rows =
      some (insert_or_update a password (monitored_folders_json k a.monitored_folders) rows)

  -- UpsertAccount
  unfoldable pub upsert_account : Option Text → EmailAccount → List Row → Option (List Row)
  unfolding upsert_encrypted encrypt_string
  upsert_account n a rows = upsert_encrypted a (encrypt_string k n a.password) rows

  -- UpdateMonitoredFolders
  unfoldable pub update_monitored_folders : Text → Text → List Text → List Row → List Row
  unfolding update_row monitored_folders_json
  update_monitored_folders user email folders =
      update_row user email
        (λ r. record r { monitored_folders = some (monitored_folders_json k folders) })

-- SetAuthType
unfoldable pub set_auth_type : Text → Text → Text → List Row → List Row
unfolding update_row
set_auth_type user email t = update_row user email (λ r. record r { auth_type = t })

-- MarkReauthNotified
unfoldable pub mark_reauth_notified : Text → Text → ℕ → List Row → List Row
unfolding update_row
mark_reauth_notified user email at =
    update_row user email (λ r. record r { last_reauth_notice_at = some at })

-- LastReauthNotifiedAt
unfoldable pub last_reauth_notified_at : Text → Text → List Row → Option ℕ
unfolding select
last_reauth_notified_at user email rows = elim (select user email rows) [
  | none ↦ none
  | some r ↦ time_of (or_zero r.last_reauth_notice_at)
]

-- UpdateLastSync
unfoldable pub update_last_sync : Text → Text → ℕ → List Row → List Row
unfolding update_row
update_last_sync user email at = update_row user email (λ r. record r { last_sync_time = at })

-- GetGmailHistoryID
unfoldable pub history_id : ℤ → ℕ
history_id (pos n) = n
history_id (negsuc n) = 0

unfoldable pub get_gmail_history_id : Text → Text → List Row → ℕ
unfolding select history_id
get_gmail_history_id user email rows = elim (select user email rows) [
  | none ↦ 0
  | some r ↦ history_id (coalesce r.oauth_history_id (pos 0))
]

-- SetGmailHistoryID
unfoldable pub set_gmail_history_id : Text → Text → ℕ → List Row → List Row
unfolding update_row to_int64
set_gmail_history_id user email id =
    update_row user email (λ r. record r { oauth_history_id = some (to_int64 id) })
