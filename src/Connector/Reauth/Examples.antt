-- ===== src/Connector/Reauth/Examples.antt =====
-- Tokens that are refused.
use matrimail.Connector.Transport.{load_runners, is_logged_in, load_user_login}
use matrimail.Prelude.{none, List, [], codes, false, refl, some, ℕ, ◌∷◌, ◌≡◌}
use matrimail.Connector.Accounts.Examples.{open_codec, ann_oauth, info}
use matrimail.Connector.Transport.Examples.{setting, unserved}
use matrimail.Connector.Reauth.{
  is_refresh_error, RefreshError, Notices, Failing, notices_of, reauth_memo_key,
  handle_refresh_error,
}
use matrimail.Connector.Reauth.Spaced.{Spaced, notices_of-Spaced}
use matrimail.Connector.Reauth.Paused.{load_user_login-handle_refresh_error}

abbrev revoked : RefreshError
revoked = record { code = some (codes "invalid_grant"); text = [] }

abbrev start : Notices
start = record { reauth_memo = []; rows = ann_oauth ∷ [] }

abbrev failing_at : ℕ → Failing
failing_at now = record { now = now; user = codes "@ann"; email = codes "ann@x"; error = revoked }

abbrev failures : List Failing
failures = failing_at 7200000000000 ∷ failing_at 7200000000001 ∷ failing_at 10800000000000 ∷ []

-- the second failure makes no notice
notices_of-failures :
    notices_of (reauth_memo_key (codes "@ann") (codes "ann@x")) failures start
    ≡ 7200000000000 ∷ 10800000000000 ∷ []
unfolding notices_of matrimail.Connector.Accounts.new_row
notices_of-failures = refl

notices_of-Spaced_example :
    Spaced (notices_of (reauth_memo_key (codes "@ann") (codes "ann@x")) failures start)
notices_of-Spaced_example = notices_of-Spaced (codes "@ann") (codes "ann@x") failures start

load_user_login-handle_refresh_error_example :
    (unserved.imap ≡ none)
    × (unserved.sender ≡ none)
    × (is_logged_in unserved ≡ false)
    × (load_runners setting open_codec
          (codes "@ann")
          (codes "ann@x")
          (handle_refresh_error 7200000000000 (codes "@ann") (codes "ann@x") revoked start).0.0.rows
          (codes "@ann|ann@x" ∷ [])
        ≡ codes "@ann|ann@x" ∷ [])
unfolding load_user_login handle_refresh_error is_refresh_error matrimail.Connector.Accounts.new_row
    matrimail.Connector.Accounts.Examples.read_names
    matrimail.Connector.Accounts.Examples.mark_names matrimail.Connector.Accounts.Examples.mark_name
    matrimail.Connector.Accounts.Examples.push
load_user_login-handle_refresh_error_example =
    load_user_login-handle_refresh_error open_codec (codes "@ann") (codes "ann@x") setting
      7200000000000 revoked start info unserved (codes "@ann|ann@x" ∷ []) refl refl refl
