-- ===== src/Connector/Accounts.antt =====
-- pkg/connector/database.go: the table of mail accounts, with passwords and tokens encrypted. The
-- database is the list of the table's rows, with the primary key (user_mxid, email); the statements
-- do not fail. A column that can be NULL is an Option. A time is a number of nanoseconds, and the zero
-- time is `none`. AES-GCM, base64, JSON and the derived key are the parameter `Codec`.
pub mod Query
pub mod Stored
pub mod Tokens
pub mod Examples
use matrimail.Prelude.{
  Bool, List, Option, [], codes, drop, if◌then◌else◌, length, ltb, none, not, some, take, text_eq,
  ◌&&◌, ◌++◌, ◌+◌, ◌-◌, ◌∷◌, Text, ℕ,
}
use matrimail.Prelude.Int.{ℤ}
use matrimail.Prelude.Strings.{has_prefix, trim_prefix}
use matrimail.Email.Threading.{is_empty}

abbrev pub auth_password : Text
auth_password = codes "password"

abbrev pub auth_oauth_gmail : Text
auth_oauth_gmail = codes "oauth-gmail"

abbrev pub auth_needs_reauth : Text
auth_needs_reauth = codes "oauth-gmail-needs-reauth"

abbrev pub provider_google : Text
provider_google = codes "google"

abbrev pub scope_modify : Text
scope_modify = codes "modify"

abbrev pub scope_full : Text
scope_full = codes "full"

-- EmailAccount, without the OAuth fields, which no query of the table fills
pub record EmailAccount : Type 0 where
  pub user_mxid : Text
  pub email : Text
  pub username : Text
  pub password : Text
  pub host : Text
  pub port : ℕ
  pub tls : Bool
  pub created_at : ℕ
  pub last_sync_time : ℕ
  pub monitored_folders : List Text
  pub auth_type : Text

pub record Row : Type 0 where
  pub user_mxid : Text
  pub email : Text
  pub username : Text
  pub password : Text
  pub host : Text
  pub port : ℕ
  pub tls : Bool
  pub created_at : ℕ
  pub last_sync_time : ℕ
  pub monitored_folders : Option Text
  pub auth_type : Text
  pub oauth_provider : Option Text
  pub oauth_refresh_token : Option Text
  pub oauth_access_token : Option Text
  pub oauth_expiry : Option ℕ
  pub scope_mode : Option Text
  pub oauth_token_issued_at : Option ℕ
  pub oauth_history_id : Option ℤ
  pub last_reauth_notice_at : Option ℕ

abbrev pub nonce_size : ℕ
nonce_size = 12

-- The key of getDBKey, `none` for its error; gcm.Seal and gcm.Open by key, nonce and text; base64; and
-- JSON of a list of names. Decoding answers `none` for an error.
pub record Codec : Type 0 where
  pub db_key : Option Text
  pub seal : Text → Text → Text → Text
  pub unseal : Text → Text → Text → Option Text
  pub encode : Text → Text
  pub decode : Text → Option Text
  pub marshal : List Text → Text
  pub unmarshal : Text → Option (List Text)

abbrev pub inbox_only : List Text
inbox_only = codes "INBOX" ∷ []

abbrev pub inbox_json : Text
inbox_json = codes "[\"INBOX\"]"

pub data DecryptError : Type 0 where
  old_version : DecryptError
  no_prefix : DecryptError
  no_key : DecryptError
  not_base64 : DecryptError
  too_short : DecryptError
  not_authentic : DecryptError

pub data Decrypted : Type 0 where
  plain : Text → Decrypted
  refused : DecryptError → Decrypted

abbrev pub enc_prefix : Text
enc_prefix = codes "v2:"

abbrev opened : Option Text → Decrypted
opened none = refused not_authentic
opened (some text) = plain text

module _ (k : Codec) where
  -- GetMonitoredFoldersJSON; Marshal does not fail on a list of strings.
  unfoldable pub monitored_folders_json : List Text → Text
  monitored_folders_json [] = inbox_json
  monitored_folders_json (f ∷ fs) = k.marshal (f ∷ fs)

  -- SetMonitoredFoldersFromJSON
  unfoldable pub folders_from_json : Text → List Text
  folders_from_json s =
      if is_empty s then inbox_only else elim (k.unmarshal s) [ none ↦ inbox_only | some fs ↦ fs ]

  encrypt_under : Option Text → Option Text → Text → Option Text
  encrypt_under none random text = none
  encrypt_under (some key) none text = none
  encrypt_under (some key) (some random) text =
      some (enc_prefix ++ k.encode (random ++ k.seal key random text))

  -- encryptString, with the nonce, `none` if there is no randomness
  unfoldable pub encrypt_string : Option Text → Text → Option Text
  unfolding encrypt_under
  encrypt_string random text = encrypt_under k.db_key random text

  decrypt_raw : Text → Option Text → Decrypted
  decrypt_raw key none = refused not_base64
  decrypt_raw key (some raw) =
      if ltb (length raw) nonce_size
      then refused too_short
      else opened (k.unseal key (take nonce_size raw) (drop nonce_size raw))

  decrypt_under : Option Text → Text → Decrypted
  unfolding decrypt_raw
  decrypt_under none body = refused no_key
  decrypt_under (some key) body = decrypt_raw key (k.decode body)

  unfoldable pub decrypt_string : Text → Decrypted
  unfolding decrypt_under has_prefix trim_prefix
  decrypt_string stored =
      if has_prefix stored (codes "v1:")
      then refused old_version
      else if not (has_prefix stored enc_prefix)
      then refused no_prefix
      else decrypt_under k.db_key (trim_prefix stored enc_prefix)

abbrev pub is_row : Text → Text → Row → Bool
is_row user email r = text_eq r.user_mxid user && text_eq r.email email

-- SELECT ... WHERE user_mxid = ? AND email = ?
unfoldable pub select : Text → Text → List Row → Option Row
select user email [] = none
select user email (r ∷ rows) = if is_row user email r then some r else select user email rows

-- UPDATE ... WHERE user_mxid = ? AND email = ?
unfoldable pub update_row : Text → Text → (Row → Row) → List Row → List Row
update_row user email f [] = []
update_row user email f (r ∷ rows) =
    (if is_row user email r then f r else r) ∷ update_row user email f rows

unfoldable pub delete_account : Text → Text → List Row → List Row
delete_account user email [] = []
delete_account user email (r ∷ rows) =
    let rest = delete_account user email rows in if is_row user email r then rest else r ∷ rest

-- the row of a new account
unfoldable pub new_row : EmailAccount → Text → Text → Row
new_row a password folders = record {
  user_mxid = a.user_mxid;
  email = a.email;
  username = a.username;
  password = password;
  host = a.host;
  port = a.port;
  tls = a.tls;
  created_at = a.created_at;
  last_sync_time = a.last_sync_time;
  monitored_folders = some folders;
  auth_type = auth_password;
  oauth_provider = none;
  oauth_refresh_token = none;
  oauth_access_token = none;
  oauth_expiry = none;
  scope_mode = none;
  oauth_token_issued_at = none;
  oauth_history_id = none;
  last_reauth_notice_at = none;
}

-- ON CONFLICT (user_mxid, email) DO UPDATE
unfoldable pub overwritten : EmailAccount → Text → Text → Row → Row
overwritten a password folders r = record r {
  username = a.username;
  password = password;
  host = a.host;
  port = a.port;
  tls = a.tls;
  last_sync_time = a.last_sync_time;
  monitored_folders = some folders;
}

unfoldable pub insert_or_update : EmailAccount → Text → Text → List Row → List Row
unfolding new_row overwritten
insert_or_update a password folders [] = new_row a password folders ∷ []
insert_or_update a password folders (r ∷ rows) =
    let rest = insert_or_update a password folders rows in
    if is_row a.user_mxid a.email r then overwritten a password folders r ∷ rows else r ∷ rest
