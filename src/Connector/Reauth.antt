-- ===== src/Connector/Reauth.antt =====
-- pkg/connector/reauth.go and reauth_tokensource.go: what a failed refresh of a token leads to. The
-- state is the memory of the process (reauthMemo) and the table of accounts. Whether the notice then
-- reaches the management room of the user changes neither.
pub mod Spaced
pub mod Paused
pub mod Examples
use matrimail.Prelude.{
  Bool, List, Option, Text, [], any, codes, false, if◌then◌else◌, ltb, none, some, text_eq, true, ℕ,
  ◌&&◌, ◌++◌, ◌+◌, ◌||◌, ◌∷◌,
}
use matrimail.Prelude.TextMap.{TextMap, lookup, put}
use matrimail.Prelude.Strings.{contains}
use matrimail.Connector.Accounts.{Codec, Row, auth_needs_reauth}
use matrimail.Connector.Accounts.Query.{
  save_oauth_token, Token, set_auth_type, mark_reauth_notified, last_reauth_notified_at,
}

-- an error of a refresh: the ErrorCode of an oauth2.RetrieveError, and its text
pub record RefreshError : Type 0 where
  pub code : Option Text
  pub text : Text

abbrev permanent_codes : List Text
permanent_codes = codes "invalid_grant" ∷ codes "invalid_token" ∷ codes "unauthorized_client" ∷ []

abbrev permanent_texts : List Text
permanent_texts =
    codes "invalid_grant"
    ∷ codes "invalid_token"
    ∷ codes "Token has been expired or revoked"
    ∷ codes "unauthorized_client"
    ∷ []

abbrev is_permanent_code : Option Text → Bool
is_permanent_code none = false
is_permanent_code (some c) = any (text_eq c) permanent_codes

-- IsRefreshError of pkg/email/oauth_authcode.go, for an error
unfoldable pub is_refresh_error : RefreshError → Bool
unfolding contains text_eq any
is_refresh_error e = is_permanent_code e.code || any (contains e.text) permanent_texts

-- time.Hour
abbrev pub reauth_debounce_window : ℕ
reauth_debounce_window = 3600000000000

unfoldable pub reauth_memo_key : Text → Text → Text
reauth_memo_key user email = user ++ (codes "|" ++ email)

pub record Notices : Type 0 where
  pub reauth_memo : TextMap ℕ
  pub rows : List Row

-- whether the last notice is less than an hour old, or lies ahead
unfoldable pub is_recent : ℕ → Option ℕ → Bool
is_recent now none = false
is_recent now (some last) = ltb now (last + reauth_debounce_window)

-- behind the memory: the debounce by the table, and the notice
unfoldable pub notify_on_disk : ℕ → Text → Text → Notices → Notices × Bool
unfolding is_recent last_reauth_notified_at mark_reauth_notified
notify_on_disk now user email n =
    if is_recent now (last_reauth_notified_at user email n.rows)
    then (n, false)
    else (record n { rows = mark_reauth_notified user email now n.rows }, true)

-- NotifyReauthRequired, and whether it comes to the notice
unfoldable pub notify_reauth_required : ℕ → Text → Text → Notices → Notices × Bool
unfolding is_recent lookup put notify_on_disk reauth_memo_key
notify_reauth_required now user email n =
    let key = reauth_memo_key user email in
    if is_recent now (lookup key n.reauth_memo)
    then (n, false)
    else notify_on_disk now user email (record n { reauth_memo = put key now n.reauth_memo })

-- HandleRefreshError: the state, whether there is a notice, and the answer
unfoldable pub handle_refresh_error :
    ℕ → Text → Text → RefreshError → Notices → (Notices × Bool) × Bool
unfolding is_refresh_error notify_reauth_required set_auth_type
handle_refresh_error now user email e n =
    if is_refresh_error e
    then (
      notify_reauth_required now user email
          (record n { rows = set_auth_type user email auth_needs_reauth n.rows }),
      true,
    )
    else ((n, false), false)

-- a failed refresh of some account
pub record Failing : Type 0 where
  pub now : ℕ
  pub user : Text
  pub email : Text
  pub error : RefreshError

-- the times of the notices about an account, over failures of any accounts
abbrev noted : Bool → ℕ → List ℕ → List ℕ
noted true now rest = now ∷ rest
noted false now rest = rest

unfoldable pub notices_of : Text → List Failing → Notices → List ℕ
unfolding handle_refresh_error text_eq reauth_memo_key
notices_of key [] n = []
notices_of key (f ∷ fs) n =
    let ((n', sent), answer) = handle_refresh_error f.now f.user f.email f.error n in
    let rest = notices_of key fs n' in
    noted (sent && text_eq (reauth_memo_key f.user f.email) key) f.now rest

-- what the source of tokens that Token wraps answers
pub data Refresh : Type 0 where
  refused_refresh : RefreshError → Refresh
  refreshed_token : Token → Refresh

-- reauthAwareTokenSource, with what stands outside of it
pub record TokenSource : Type 0 where
  pub persisted : Option Token
  pub notices : Notices

is_persisted : Option Token → Token → Bool
is_persisted none tok = false
is_persisted (some old) tok = text_eq old.access_token tok.access_token

persist : Option (List Row) → Token → TokenSource → TokenSource
persist none tok r = r
persist (some rows) tok r = record r {
  persisted = some tok;
  notices = record r.notices { rows = rows };
}

-- Token, with the two nonces of SaveOAuthToken
unfoldable pub token :
    Codec
    → Option Text
    → Option Text
    → ℕ
    → Text
    → Text
    → Text
    → Refresh
    → TokenSource
    → TokenSource × Option Token
unfolding handle_refresh_error save_oauth_token is_persisted persist
token k n1 n2 now user email provider (refused_refresh e) r =
    (record r { notices = (handle_refresh_error now user email e r.notices).0.0 }, none)
token k n1 n2 now user email provider (refreshed_token tok) r =
    if is_persisted r.persisted tok
    then (r, some tok)
    else (persist (save_oauth_token k n1 n2 user email provider tok r.notices.rows) tok r, some tok)
