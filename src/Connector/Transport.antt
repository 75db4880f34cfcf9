-- ===== src/Connector/Transport.antt =====
-- pkg/connector/client.go: how an account is connected when its login is loaded. createIMAPClient,
-- startGmailInboundIfApplicable and buildSender choose by what the table of accounts says; whether the
-- IMAP client and the poller can be made, and the MX records, are arguments.
pub mod Exclusive
pub mod Examples
use matrimail.Email.Threading.{member}
use matrimail.Prelude.{
  codes, ◌++◌, ◌+◌, Bool, List, Option, [], false, if◌then◌else◌, none, not, some, text_eq, true,
  ◌&&◌, ◌||◌, ◌∷◌, Text,
}
use matrimail.Email.Senders.{Sender, pick_sender, is_gmail_domain}
use matrimail.Connector.Accounts.{
  EmailAccount, Row, Codec, auth_oauth_gmail, auth_needs_reauth, scope_modify, inbox_only,
}
use matrimail.Connector.Accounts.Query.{
  Token, OAuthAccountInfo, Loaded, missing, unreadable, found, get_account, get_oauth_account,
}

pub data ImapLogin : Type 0 where
  with_password : Text → ImapLogin
  with_token : Token → ImapLogin

-- createIMAPClient: it leaves the client nil, with or without a report that a new login is needed,
-- makes it, or fails
pub data Created : Type 0 where
  skipped : Created
  needs_reauth : Created
  created : ImapLogin → Created
  create_failed : Created

-- the parts of EmailClient that LoadUserLogin sets
pub record Connection : Type 0 where
  pub password : Text
  pub folders : List Text
  pub imap : Option ImapLogin
  pub reauth_reported : Bool
  pub sender : Option Sender
  pub gmail_api_inbound : Bool

-- What is met: whether the bridge has the OAuth client's id and secret, whether NewClient and
-- NewClientOAuth make a client, whether the poller starts, and whether the domain's MX records are
-- Google's.
pub record Setting : Type 0 where
  pub has_oauth_config : Bool
  pub makes_client : ImapLogin → Bool
  pub poller_starts : Bool
  pub is_google_domain : Bool

-- the info that GetOAuthAccount returns, an error or not
abbrev pub info_of : Loaded OAuthAccountInfo → Option OAuthAccountInfo
info_of missing = none
info_of (unreadable info) = info
info_of (found info) = some info

abbrev pub has_token : Option Token → Bool
has_token none = false
has_token (some t) = true

module _ (s : Setting) where
  unfoldable pub make : ImapLogin → Created
  make login = if s.makes_client login then created login else create_failed

  unfoldable pub with_oauth : Option Token → Created
  unfolding make
  with_oauth none = create_failed
  with_oauth (some t) = if s.has_oauth_config then make (with_token t) else create_failed

  unfoldable pub create_for : Text → Option OAuthAccountInfo → Created
  unfolding make with_oauth text_eq
  create_for password none = make (with_password password)
  create_for password (some info) =
      if text_eq info.auth_type auth_needs_reauth
      then needs_reauth
      else if text_eq info.scope_mode scope_modify
      then skipped
      else with_oauth info.token

  -- createIMAPClient
  unfoldable pub create_imap_client : Text → Loaded OAuthAccountInfo → Created
  unfolding create_for
  create_imap_client password answer = create_for password (info_of answer)

  -- startGmailInboundIfApplicable; its errors are only logged.
  unfoldable pub start_gmail_inbound_if_applicable : EmailAccount → Loaded OAuthAccountInfo → Bool
  unfolding text_eq
  start_gmail_inbound_if_applicable account missing = false
  start_gmail_inbound_if_applicable account (unreadable info) = false
  start_gmail_inbound_if_applicable account (found info) =
      text_eq account.auth_type auth_oauth_gmail
      && (has_token info.token
          && (text_eq info.scope_mode scope_modify && (s.has_oauth_config && s.poller_starts)))

  unfoldable pub oauth_sender : Text → OAuthAccountInfo → Option Sender
  unfolding text_eq pick_sender
  oauth_sender email info =
      if not (has_token info.token)
      then none
      else if text_eq info.auth_type auth_needs_reauth
      then none
      else some (
          pick_sender (record {
            email = email;
            is_gmail = true;
            is_google_workspace = false;
            app_password = [];
            has_token_source = true;
          }))

  -- buildSender, `none` for its error
  unfoldable pub build_sender : EmailAccount → Loaded OAuthAccountInfo → Option Sender
  unfolding text_eq oauth_sender pick_sender is_gmail_domain
  build_sender account answer =
      if text_eq account.auth_type auth_oauth_gmail || text_eq account.auth_type auth_needs_reauth
      then if not s.has_oauth_config then none else elim answer [
        | missing ↦ none
        | unreadable info ↦ none
        | found info ↦ oauth_sender account.email info
      ]
      else some (
          pick_sender (record {
            email = account.email;
            is_gmail = is_gmail_domain account.email;
            is_google_workspace = not (is_gmail_domain account.email) && s.is_google_domain;
            app_password = account.password;
            has_token_source = false;
          }))

  abbrev or_inbox : List Text → List Text
  or_inbox [] = inbox_only
  or_inbox (f ∷ fs) = f ∷ fs

  unfoldable pub connection_of :
      EmailAccount → Loaded OAuthAccountInfo → Option ImapLogin → Bool → Connection
  unfolding build_sender start_gmail_inbound_if_applicable
  connection_of account answer imap reported = record {
    password = account.password;
    folders = or_inbox account.monitored_folders;
    imap = imap;
    reauth_reported = reported;
    sender = build_sender account answer;
    gmail_api_inbound = start_gmail_inbound_if_applicable account answer;
  }

  unfoldable pub connect : EmailAccount → Loaded OAuthAccountInfo → Created → Option Connection
  unfolding connection_of
  connect account answer create_failed = none
  connect account answer skipped = some (connection_of account answer none false)
  connect account answer needs_reauth = some (connection_of account answer none true)
  connect account answer (created login) = some (connection_of account answer (some login) false)

  unfoldable pub load_account : Loaded EmailAccount → Loaded OAuthAccountInfo → Option Connection
  unfolding connect create_imap_client
  load_account missing answer = none
  load_account (unreadable account) answer = none
  load_account (found account) answer =
      connect account answer (create_imap_client account.password answer)

  -- LoadUserLogin, for an account with an address; `none` for its error
  unfoldable pub load_user_login : Codec → Text → Text → List Row → Option Connection
  unfolding load_account get_account get_oauth_account
  load_user_login k user email rows =
      load_account (get_account k user email rows) (get_oauth_account k user email rows)

-- IsLoggedIn
unfoldable pub is_logged_in : Connection → Bool
is_logged_in c = elim c.imap [
  | some login ↦ true
  | none ↦ elim c.sender [ none ↦ false | some s ↦ true ]
]

-- The runners of GmailInboundManager, by their keys: Start, Stop and StopAll
unfoldable pub start_runner : Text → List Text → List Text
unfolding member
start_runner key runners = if member key runners then runners else key ∷ runners

unfoldable pub stop_runner : Text → List Text → List Text
unfolding text_eq
stop_runner key [] = []
stop_runner key (r ∷ runners) =
    let rest = stop_runner key runners in if text_eq r key then rest else r ∷ rest

unfoldable pub stop_all_runners : List Text → List Text
stop_all_runners runners = []

-- the runners behind a load, which the branch of startGmailInboundIfApplicable that succeeds starts
unfoldable pub runners_with : Text → Option Connection → List Text → List Text
unfolding start_runner
runners_with key none runners = runners
runners_with key (some c) runners =
    if c.gmail_api_inbound then start_runner key runners else runners

unfoldable pub load_runners : Setting → Codec → Text → Text → List Row → List Text → List Text
unfolding runners_with load_user_login
load_runners s k user email rows runners =
    runners_with (user ++ (codes "|" ++ email)) (load_user_login s k user email rows) runners
