-- ===== src/Connector/Reauth/Paused.antt =====
-- An account whose token is refused is paused.
use matrimail.Connector.Transport.Exclusive.{load_runners-same, is_logged_in-load_user_login}
use matrimail.Email.Threading.{is_empty}
use matrimail.Prelude.{
  Bool-cases, List, Option, Text, [], ap, arith, false, inl, inr, none, refl, some, text_eq, true,
  ℕ, ◌∙◌, ◌≡◌,
}
use matrimail.Prelude.Strings.{text_eq_refl}
use mathlib.Core.Option
use matrimail.Connector.Accounts.{Row, Codec, select, update_row, is_row, auth_needs_reauth}
use matrimail.Connector.Accounts.Query.{
  Token, is_oauth, coalesce, OAuthAccountInfo, missing, found, oauth_info, get_oauth_account,
  set_auth_type, mark_reauth_notified, beside_token,
}
use matrimail.Connector.Accounts.Stored.{select-update_row}
use matrimail.Connector.Transport.{load_runners, Setting, Connection, load_user_login, is_logged_in}
use matrimail.Connector.Reauth.{
  RefreshError, Notices, notify_on_disk, notify_reauth_required, handle_refresh_error,
  is_refresh_error,
}

abbrev flagged_row : Row → Row
flagged_row r = record r { auth_type = auth_needs_reauth }

abbrev noticed_row : ℕ → Row → Row
noticed_row now r = record r { last_reauth_notice_at = some now }

-- what the table says of an account, but for the time of the last notice
module _ (k : Codec) (user email : Text) where
  get_oauth_account-updated :
      (f : Row → Row) (rows : List Row)
      → ((r : Row) → is_row user email (f r) ≡ is_row user email r)
      → get_oauth_account k user email (update_row user email f rows)
        ≡ oauth_info k (Option.map f (select user email rows))
  unfolding get_oauth_account
  get_oauth_account-updated f rows keep = ap (oauth_info k) (
      select-update_row user email user email f rows keep
      ∙ rw (text_eq_refl user, text_eq_refl email) refl)

  oauth_info-mark :
      (o : Option Row) (now : ℕ) → oauth_info k (Option.map (noticed_row now) o) ≡ oauth_info k o
  unfolding oauth_info
  oauth_info-mark none now = refl
  oauth_info-mark (some r) now = refl

  get_oauth_account-mark_reauth_notified :
      (now : ℕ) (rows : List Row)
      → get_oauth_account k user email (mark_reauth_notified user email now rows)
        ≡ get_oauth_account k user email rows
  unfolding mark_reauth_notified
  get_oauth_account-mark_reauth_notified now rows =
      get_oauth_account-updated (noticed_row now) rows (λ r. refl)
      ∙ oauth_info-mark (select user email rows) now
      ∙ (unfold get_oauth_account in refl)

  beside_token-flagged :
      (before info : OAuthAccountInfo) (o : Option Token)
      → beside_token k before o ≡ found info
      → beside_token k (record before { auth_type = auth_needs_reauth }) o
        ≡ found (record info { auth_type = auth_needs_reauth })
  unfolding beside_token
  beside_token-flagged before info none h = cc
  beside_token-flagged before info (some t) h = ground (arith, h)

  oauth_info-flagged :
      (o : Option Row) (info : OAuthAccountInfo)
      → oauth_info k o ≡ found info
      → oauth_info k (Option.map flagged_row o)
        ≡ found (record info { auth_type = auth_needs_reauth })
  unfolding oauth_info text_eq
  oauth_info-flagged none info h = cc
  oauth_info-flagged (some r) info h = elim (Bool-cases (is_oauth r.auth_type)) [
    | inr n ↦ let no_account : missing ≡ found info = rw n at h in cc
    | inl y ↦ elim (Bool-cases (is_empty (coalesce r.oauth_refresh_token []))) [
      | inl e ↦ let same = rw e at (rw y at h) in rw e (ground (arith, same))
      | inr f ↦ rw f (beside_token-flagged _ info _ (rw f at (rw y at h)))
    ]
  ]

  get_oauth_account-set_auth_type :
      (rows : List Row) (info : OAuthAccountInfo)
      → get_oauth_account k user email rows ≡ found info
      → get_oauth_account k user email (set_auth_type user email auth_needs_reauth rows)
        ≡ found (record info { auth_type = auth_needs_reauth })
  unfolding set_auth_type
  get_oauth_account-set_auth_type rows info h =
      get_oauth_account-updated flagged_row rows (λ r. refl)
      ∙ oauth_info-flagged (select user email rows) info (unfold get_oauth_account in h)

  get_oauth_account-notify :
      (now : ℕ) (n : Notices)
      → get_oauth_account k user email (notify_reauth_required now user email n).0.rows
        ≡ get_oauth_account k user email n.rows
  unfolding notify_reauth_required notify_on_disk
  get_oauth_account-notify now n = ground (arith, get_oauth_account-mark_reauth_notified now n.rows)

  get_oauth_account-handle_refresh_error :
      (now : ℕ) (e : RefreshError) (n : Notices) (info : OAuthAccountInfo)
      → get_oauth_account k user email n.rows ≡ found info
      → is_refresh_error e ≡ true
      → get_oauth_account k user email (handle_refresh_error now user email e n).0.0.rows
        ≡ found (record info { auth_type = auth_needs_reauth })
  unfolding handle_refresh_error
  get_oauth_account-handle_refresh_error now e n info h bad =
      let n' : Notices = record n { rows = set_auth_type user email auth_needs_reauth n.rows } in
      rw bad (get_oauth_account-notify now n' ∙ get_oauth_account-set_auth_type n.rows info h)

  -- Once the refresh of a token has failed for good, a connection that LoadUserLogin makes for the
  -- account has neither an IMAP client nor a sender, so it does not count as logged in, and the load
  -- starts no Gmail poller: the pollers that run are those that ran before.
  pub load_user_login-handle_refresh_error :
      (s : Setting) (now : ℕ) (e : RefreshError) (n : Notices) (info : OAuthAccountInfo)
      (c : Connection) (runners : List Text)
      → get_oauth_account k user email n.rows ≡ found info
      → is_refresh_error e ≡ true
      → load_user_login s k user email (handle_refresh_error now user email e n).0.0.rows ≡ some c
      → (c.imap ≡ none)
        × (c.sender ≡ none)
        × (is_logged_in c ≡ false)
        × (load_runners s k user email (handle_refresh_error now user email e n).0.0.rows runners
            ≡ runners)
  load_user_login-handle_refresh_error s now e n info c runners h bad loaded =
      let flagged = get_oauth_account-handle_refresh_error now e n info h bad in
      let (imap, sender, out, inbound) =
        is_logged_in-load_user_login s k user email
          (handle_refresh_error now user email e n).0.0.rows
          (record info { auth_type = auth_needs_reauth }) c flagged refl loaded in
      (
        imap,
        sender,
        out,
        load_runners-same s k user email (handle_refresh_error now user email e n).0.0.rows runners
            c loaded inbound,
      )
