-- ===== src/Connector/Transport/Examples.antt =====
-- Connections of an account that the Gmail poller serves, of one that is flagged, and of one in full
-- IMAP mode over which a password has been saved.
use matrimail.Email.Senders.{gmail_api}
use matrimail.Connector.Accounts.{Row}
use matrimail.Connector.Accounts.Query.{upsert_account}
use matrimail.Connector.Transport.{
  with_password, with_token, Row, load_user_login, Connection, Setting,
}
use matrimail.Prelude.{[], codes, false, none, refl, some, true, ◌∷◌, ◌≢◌}
use matrimail.Connector.Accounts.Examples.{open_codec, ann, ann_oauth, info, twelve, token}
use matrimail.Connector.Transport.Exclusive.{load_user_login-upsert_account}

abbrev pub setting : Setting
setting = record {
  has_oauth_config = true;
  makes_client = λ login. true;
  poller_starts = true;
  is_google_domain = false;
}

abbrev pub polled : Connection
polled = record {
  password = codes "secret";
  folders = codes "INBOX" ∷ codes "Work" ∷ [];
  imap = none;
  reauth_reported = false;
  sender = some gmail_api;
  gmail_api_inbound = true;
}

abbrev pub unserved : Connection
unserved = record polled { reauth_reported = true; sender = none; gmail_api_inbound = false }

abbrev full : Row
full = record ann_oauth { scope_mode = some (codes "full") }

abbrev by_token : Connection
by_token = record polled { imap = some (with_token token); gmail_api_inbound = false }

load_user_login-upsert_account_example :
    some (with_token token) ≢ some (with_password (codes "secret"))
unfolding load_user_login upsert_account matrimail.Connector.Accounts.Examples.read_names
    matrimail.Connector.Accounts.Examples.mark_names matrimail.Connector.Accounts.Examples.mark_name
    matrimail.Connector.Accounts.Examples.push
load_user_login-upsert_account_example =
    load_user_login-upsert_account setting open_codec (some twelve) ann (full ∷ []) (full ∷ [])
      (record info { scope_mode = codes "full" }) by_token (codes "secret") refl refl refl
