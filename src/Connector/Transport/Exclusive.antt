-- ===== src/Connector/Transport/Exclusive.antt =====
-- Which transports an account has, and which it never has.
use matrimail.Email.Threading.{is_empty}
use matrimail.Prelude.{
  Bool-cases, List, Option, [], ap, arith, false, inl, inr, none, refl, some, sym, text_eq, ◌∙◌,
  ◌≡◌, ◌≢◌, Text,
}
use matrimail.Connector.Accounts.{
  plain, refused, decrypt_string, Decrypted, select, EmailAccount, Row, Codec, auth_needs_reauth,
  scope_modify,
}
use matrimail.Connector.Accounts.Query.{
  beside_token, coalesce, is_oauth, account_of_row, account_with, Token, OAuthAccountInfo, Loaded,
  missing, unreadable, found, get_account, get_oauth_account, upsert_account, oauth_info,
}
use matrimail.Connector.Accounts.Stored.{get_oauth_account-upsert_account}
use matrimail.Connector.Transport.{
  runners_with, load_runners, has_token, oauth_sender, is_logged_in, Setting, Connection, Created,
  skipped, needs_reauth, created, create_failed, ImapLogin, with_password, with_token, make,
  with_oauth, create_for, create_imap_client, start_gmail_inbound_if_applicable, build_sender,
  connection_of, connect, load_account, load_user_login,
}

abbrev imap_of : Created → Option ImapLogin
imap_of (created login) = some login
imap_of other = none

account_of_row-auth_type :
    (k : Codec) (r : Row) (d : Decrypted) (account : EmailAccount)
    → account_with k r d ≡ found account
    → account.auth_type ≡ r.auth_type
unfolding account_with
account_of_row-auth_type k r (refused e) account h = cc
account_of_row-auth_type k r (plain p) account h = ground (arith, h)

beside_token-auth_type :
    (k : Codec) (info before : OAuthAccountInfo) (o : Option Token)
    → beside_token k before o ≡ found info
    → info.auth_type ≡ before.auth_type
unfolding beside_token
beside_token-auth_type k info before none h = cc
beside_token-auth_type k info before (some t) h = ground (arith, h)

oauth_info-auth_type :
    (k : Codec) (r : Row) (info : OAuthAccountInfo)
    → oauth_info k (some r) ≡ found info
    → info.auth_type ≡ r.auth_type
unfolding oauth_info
oauth_info-auth_type k r info h = elim (Bool-cases (is_oauth r.auth_type)) [
  | inr n ↦ let no_account : missing ≡ found info = rw n at h in cc
  | inl y ↦ elim (Bool-cases (is_empty (coalesce r.oauth_refresh_token []))) [
    | inl e ↦ let same = rw e at (rw y at h) in ground (arith, same)
    | inr f ↦ beside_token-auth_type k info _ _ (rw f at (rw y at h))
  ]
]

row-auth_type :
    (k : Codec) (o : Option Row) (account : EmailAccount) (info : OAuthAccountInfo)
    → account_of_row k o ≡ found account
    → oauth_info k o ≡ found info
    → account.auth_type ≡ info.auth_type
unfolding account_of_row
row-auth_type k none account info a b = cc
row-auth_type k (some r) account info a b =
    account_of_row-auth_type k r (decrypt_string k r.password) account a
    ∙ sym (oauth_info-auth_type k r info b)

-- both queries read the same row
auth_type-same :
    (k : Codec) (user email : Text) (rows : List Row) (account : EmailAccount)
    (info : OAuthAccountInfo)
    → get_account k user email rows ≡ found account
    → get_oauth_account k user email rows ≡ found info
    → account.auth_type ≡ info.auth_type
unfolding get_account get_oauth_account
auth_type-same k user email rows = row-auth_type k (select user email rows)

module _ (s : Setting) where
  -- what the parts of a connection are made from
  record IsConnected (account : EmailAccount) (answer : Loaded OAuthAccountInfo) (c : Connection)
      : Type 0 where
    imap : c.imap ≡ imap_of (create_imap_client s account.password answer)
    sender : c.sender ≡ build_sender s account answer
    inbound : c.gmail_api_inbound ≡ start_gmail_inbound_if_applicable s account answer

  connect-IsConnected :
      (account : EmailAccount) (answer : Loaded OAuthAccountInfo) (o : Created) (c : Connection)
      → create_imap_client s account.password answer ≡ o
      → connect s account answer o ≡ some c
      → IsConnected account answer c
  unfolding connect connection_of
  connect-IsConnected account answer create_failed c e h = cc
  connect-IsConnected account answer skipped c e h = record {
    imap = rw e (ground (arith, h));
    sender = ground (arith, h);
    inbound = ground (arith, h);
  }
  connect-IsConnected account answer needs_reauth c e h = record {
    imap = rw e (ground (arith, h));
    sender = ground (arith, h);
    inbound = ground (arith, h);
  }
  connect-IsConnected account answer (created login) c e h = record {
    imap = rw e (ground (arith, h));
    sender = ground (arith, h);
    inbound = ground (arith, h);
  }

  load_account-IsConnected :
      (loaded : Loaded EmailAccount) (answer : Loaded OAuthAccountInfo) (c : Connection)
      → load_account s loaded answer ≡ some c
      → (account : EmailAccount) × (loaded ≡ found account) × IsConnected account answer c
  unfolding load_account
  load_account-IsConnected missing answer c h = cc
  load_account-IsConnected (unreadable a) answer c h = cc
  load_account-IsConnected (found account) answer c h = (
    account,
    refl,
    connect-IsConnected account answer (create_imap_client s account.password answer) c refl h,
  )

  imap_of-make :
      (token : Token) (p : Text) → imap_of (make s (with_token token)) ≢ some (with_password p)
  unfolding make
  imap_of-make token p h = elim (Bool-cases (s.makes_client (with_token token))) [
    | inl y ↦ let made : some (with_token token) ≡ some (with_password p) = rw y at h in cc
    | inr n ↦ let made : none ≡ some (with_password p) = rw n at h in cc
  ]

  imap_of-with_oauth :
      (token : Option Token) (p : Text) → imap_of (with_oauth s token) ≢ some (with_password p)
  unfolding with_oauth
  imap_of-with_oauth none p h = cc
  imap_of-with_oauth (some token) p h = elim (Bool-cases s.has_oauth_config) [
    | inl y ↦ imap_of-make token p (rw y at h)
    | inr n ↦ let made : none ≡ some (with_password p) = rw n at h in cc
  ]

  imap_of-oauth :
      (password p : Text) (info : OAuthAccountInfo)
      → imap_of (create_for s password (some info)) ≢ some (with_password p)
  unfolding create_for
  imap_of-oauth password p info h = elim (Bool-cases (text_eq info.auth_type auth_needs_reauth)) [
    | inl y ↦ let made : none ≡ some (with_password p) = rw y at h in cc
    | inr n ↦ elim (Bool-cases (text_eq info.scope_mode scope_modify)) [
      | inl y ↦ let made : none ≡ some (with_password p) = rw y at (rw n at h) in cc
      | inr m ↦ imap_of-with_oauth info.token p (rw m at (rw n at h))
    ]
  ]

  sender-needs_reauth :
      (account : EmailAccount) (info : OAuthAccountInfo)
      → account.auth_type ≡ info.auth_type
      → info.auth_type ≡ auth_needs_reauth
      → build_sender s account (found info) ≡ none
  unfolding build_sender oauth_sender text_eq
  sender-needs_reauth account info e a = rw e (
      rw a (elim (Bool-cases s.has_oauth_config) [
        | inr n ↦ rw n refl
        | inl y ↦
            rw y
              (elim (Bool-cases (has_token info.token)) [ inr n ↦ rw n refl | inl t ↦ rw t refl ])
      ]))

  inbound-needs_reauth :
      (account : EmailAccount) (info : OAuthAccountInfo)
      → account.auth_type ≡ info.auth_type
      → info.auth_type ≡ auth_needs_reauth
      → start_gmail_inbound_if_applicable s account (found info) ≡ false
  unfolding start_gmail_inbound_if_applicable text_eq
  inbound-needs_reauth account info e a = rw e (rw a refl)

  imap_of-needs_reauth :
      (password : Text) (info : OAuthAccountInfo)
      → info.auth_type ≡ auth_needs_reauth
      → imap_of (create_for s password (some info)) ≡ none
  unfolding create_for text_eq
  imap_of-needs_reauth password info a = rw a refl

  is_logged_in-nothing : (c : Connection) → c.imap ≡ none → c.sender ≡ none → is_logged_in c ≡ false
  unfolding is_logged_in
  is_logged_in-nothing c a b = rw a (rw b refl)

  pub load_runners-same :
      (k : Codec) (user email : Text) (rows : List Row) (runners : List Text) (c : Connection)
      → load_user_login s k user email rows ≡ some c
      → c.gmail_api_inbound ≡ false
      → load_runners s k user email rows runners ≡ runners
  unfolding load_runners runners_with
  load_runners-same k user email rows runners c h n = rw (h, n) refl

  -- While an account is flagged as in need of a new login, a connection that LoadUserLogin makes for
  -- it has neither an IMAP client nor a sender, so it does not count as logged in, and it starts no
  -- Gmail poller.
  pub is_logged_in-load_user_login :
      (k : Codec) (user email : Text) (rows : List Row) (info : OAuthAccountInfo) (c : Connection)
      → get_oauth_account k user email rows ≡ found info
      → info.auth_type ≡ auth_needs_reauth
      → load_user_login s k user email rows ≡ some c
      → (c.imap ≡ none)
        × (c.sender ≡ none)
        × (is_logged_in c ≡ false)
        × (c.gmail_api_inbound ≡ false)
  unfolding load_user_login
  is_logged_in-load_user_login k user email rows info c e a h =
      let answer = get_oauth_account k user email rows in
      let (account, loaded, parts) =
        load_account-IsConnected (get_account k user email rows) answer c h in
      let same = auth_type-same k user email rows account info loaded e in
      let imap =
        parts.imap
        ∙ ap (λ a. imap_of (create_imap_client s account.password a)) e
        ∙ (unfold create_imap_client in imap_of-needs_reauth account.password info a) in
      let sender =
        parts.sender ∙ ap (build_sender s account) e ∙ sender-needs_reauth account info same a in
      (
        imap,
        sender,
        is_logged_in-nothing c imap sender,
        parts.inbound
            ∙ ap (start_gmail_inbound_if_applicable s account) e
            ∙ inbound-needs_reauth account info same a,
      )

  -- After a login with a password has been saved over an account in OAuth mode, the connection that
  -- LoadUserLogin makes still does not use the password: its IMAP client, if there is one, logs in
  -- with a token.
  pub load_user_login-upsert_account :
      (k : Codec) (nonce : Option Text) (a : EmailAccount) (rows rows' : List Row)
      (info : OAuthAccountInfo) (c : Connection) (p : Text)
      → get_oauth_account k a.user_mxid a.email rows ≡ found info
      → upsert_account k nonce a rows ≡ some rows'
      → load_user_login s k a.user_mxid a.email rows' ≡ some c
      → c.imap ≢ some (with_password p)
  unfolding load_user_login
  load_user_login-upsert_account k nonce a rows rows' info c p e up h imap =
      let answer = get_oauth_account k a.user_mxid a.email rows' in
      let (account, loaded, parts) =
        load_account-IsConnected (get_account k a.user_mxid a.email rows') answer c h in
      let still =
        get_oauth_account-upsert_account k nonce a rows rows' a.user_mxid a.email up ∙ e in
      imap_of-oauth account.password p info (
        (unfold create_imap_client in
          sym (ap (λ o. imap_of (create_imap_client s account.password o)) still))
        ∙ sym parts.imap
        ∙ imap)
