-- ===== src/Connector/Accounts/Examples.antt =====
-- A table in which nothing is hidden: the cipher is the identity.
use matrimail.Prelude.Strings.Utf8.{is_utf8}
use matrimail.Connector.Accounts.Stored.{JsonLaws}
use matrimail.Prelude.{
  All, List, Text, [], ap, codes, drop, false, if◌then◌else◌, none, refl, some, suc, text_eq, true,
  zero, ℕ, ◌&&◌, ◌∙◌, ◌∷◌, ◌≡◌,
}
use matrimail.Connector.Accounts.{
  select, EmailAccount, Row, Codec, inbox_only, inbox_json, auth_oauth_gmail, auth_needs_reauth,
  new_row,
}
use matrimail.Connector.Accounts.Query.{
  OAuthAccountInfo, Token, found, upsert_account, get_account, get_oauth_account,
  save_oauth_token_with_scope, save_oauth_token,
}
use matrimail.Connector.Accounts.Stored.{
  CodecLaws, get_account-upsert_account, get_oauth_account-upsert_account, stored_account,
}
use matrimail.Connector.Accounts.Tokens.{
  get_oauth_account-save_oauth_token_with_scope, get_oauth_account-save_oauth_token,
}

-- a list of names as text: a byte is one more than it was, and a name ends in 0
unfoldable pub mark_name : Text → Text → Text
mark_name [] rest = 0 ∷ rest
mark_name (c ∷ name) rest = suc c ∷ mark_name name rest

unfoldable pub mark_names : List Text → Text
mark_names [] = []
mark_names (name ∷ names) = mark_name name (mark_names names)

unfoldable pub push : ℕ → List Text → List Text
push c [] = []
push c (name ∷ names) = (c ∷ name) ∷ names

unfoldable pub read_names : Text → List Text
read_names [] = []
read_names (zero ∷ t) = [] ∷ read_names t
read_names (suc c ∷ t) = push c (read_names t)

read_names-mark_name :
    (name rest : Text) → read_names (mark_name name rest) ≡ name ∷ read_names rest
unfolding read_names mark_name
read_names-mark_name [] rest = refl
read_names-mark_name (c ∷ name) rest = rw (read_names-mark_name name rest) (unfold push in refl)

read_names-mark_names : (names : List Text) → read_names (mark_names names) ≡ names
unfolding mark_names
read_names-mark_names [] = unfold read_names in refl
read_names-mark_names (name ∷ names) =
    read_names-mark_name name (mark_names names)
    ∙ ap (λ ns. name ∷ ns) (read_names-mark_names names)

abbrev pub open_codec : Codec
open_codec = record {
  db_key = some [];
  seal = λ key nonce_bytes t. t;
  unseal = λ key nonce_bytes t. some t;
  encode = λ t. t;
  decode = λ t. some t;
  marshal = λ names. 2 ∷ mark_names names;
  unmarshal = λ t. if text_eq t inbox_json then some inbox_only else some (read_names (drop 1 t));
}

open_codec-CodecLaws : CodecLaws open_codec
open_codec-CodecLaws = record {
  decode-encode = λ t. refl;
  unseal-seal = λ key nonce_bytes t long. refl;
}

open_codec-JsonLaws : JsonLaws open_codec
unfolding text_eq
open_codec-JsonLaws = record {
  unmarshal-marshal = λ names valid. ap some (read_names-mark_names names);
  unmarshal-inbox = refl;
  marshal-filled = λ names. refl;
}

abbrev pub twelve : Text
twelve = codes "123456789012"

abbrev pub ann : EmailAccount
ann = record {
  user_mxid = codes "@ann";
  email = codes "ann@x";
  username = codes "ann";
  password = codes "secret";
  host = codes "imap.x";
  port = 993;
  tls = true;
  created_at = 5;
  last_sync_time = 6;
  monitored_folders = codes "INBOX" ∷ codes "Work" ∷ [];
  auth_type = [];
}

ann_folders : All (λ f. is_utf8 f ≡ true) ann.monitored_folders
unfolding is_utf8
ann_folders = (refl, (refl, tt))

abbrev pub sealed : Text
sealed = codes "v2:123456789012secret"

abbrev pub ann_row : Row
ann_row = new_row ann sealed (2 ∷ mark_names ann.monitored_folders)

abbrev pub token : Token
token = record { access_token = codes "a"; refresh_token = codes "r"; expiry = some 9 }

get_account-upsert_account_example :
    (get_account open_codec (codes "@ann") (codes "ann@x") (ann_row ∷ [])
      ≡ found (stored_account ann none))
    × ((u e : Text)
        → (text_eq (codes "@ann") u && text_eq (codes "ann@x") e) ≡ false
        → get_account open_codec u e (ann_row ∷ []) ≡ get_account open_codec u e [])
unfolding upsert_account select
get_account-upsert_account_example =
    get_account-upsert_account open_codec twelve ann [] (ann_row ∷ []) open_codec-CodecLaws
      open_codec-JsonLaws ann_folders refl refl

-- the table after a login by OAuth
abbrev pub ann_oauth : Row
ann_oauth = record ann_row {
  auth_type = auth_oauth_gmail;
  oauth_provider = some (codes "google");
  oauth_refresh_token = some (codes "v2:123456789012r");
  oauth_access_token = some (codes "v2:123456789012a");
  oauth_expiry = some 9;
  scope_mode = some (codes "modify");
  oauth_token_issued_at = some 77;
  last_reauth_notice_at = some 0;
}

abbrev pub info : OAuthAccountInfo
info = record {
  auth_type = auth_oauth_gmail;
  provider = codes "google";
  scope_mode = codes "modify";
  token = some token;
  issued_at = some 77;
}

get_oauth_account-upsert_account_example :
    get_oauth_account open_codec (codes "@ann") (codes "ann@x") (ann_oauth ∷ [])
    ≡ get_oauth_account open_codec (codes "@ann") (codes "ann@x") (ann_oauth ∷ [])
unfolding upsert_account select text_eq
get_oauth_account-upsert_account_example =
    get_oauth_account-upsert_account open_codec (some twelve) ann (ann_oauth ∷ []) (ann_oauth ∷ [])
      (codes "@ann") (codes "ann@x") refl

get_oauth_account-save_oauth_token_with_scope_example :
    get_oauth_account open_codec (codes "@ann") (codes "ann@x") (ann_oauth ∷ []) ≡ found info
unfolding save_oauth_token_with_scope text_eq new_row
get_oauth_account-save_oauth_token_with_scope_example =
    get_oauth_account-save_oauth_token_with_scope open_codec open_codec-CodecLaws twelve twelve 77
      (codes "@ann") (codes "ann@x") [] [] token (ann_row ∷ []) (ann_oauth ∷ []) refl refl refl

abbrev pub flagged : List Row
flagged = record ann_oauth { auth_type = auth_needs_reauth } ∷ []

-- a refresh takes the flag away
get_oauth_account-save_oauth_token_example :
    get_oauth_account open_codec (codes "@ann") (codes "ann@x") (ann_oauth ∷ []) ≡ found info
unfolding save_oauth_token get_oauth_account text_eq new_row
get_oauth_account-save_oauth_token_example =
    get_oauth_account-save_oauth_token open_codec open_codec-CodecLaws twelve twelve (codes "@ann")
      (codes "ann@x") [] token flagged (ann_oauth ∷ [])
      (record info { auth_type = auth_needs_reauth }) refl refl refl refl
