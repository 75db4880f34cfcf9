-- ===== src/Connector/Accounts/Tokens.antt =====
-- The OAuth token of an account: saved at the login, saved again when it is refreshed, and read.
use matrimail.Prelude.Strings.{text_eq_refl}
use matrimail.Prelude.{
  Bool-cases, List, Option, [], ap, arith, false, if◌then◌else◌, inl, inr, length, none, refl, some,
  text_eq, ◌∙◌, ◌∷◌, ◌≡◌, Text, ℕ,
}
use mathlib.Core.Option
use matrimail.Email.Threading.{is_empty}
use matrimail.Connector.Accounts.{
  encrypt_under, Row, Codec, encrypt_string, decrypt_string, select, update_row, is_row, nonce_size,
  auth_oauth_gmail, scope_full,
}
use matrimail.Connector.Accounts.Query.{
  is_oauth, affected, or_google, coalesce, Token, OAuthAccountInfo, missing, found,
  save_oauth_token_with_scope, save_oauth_token, oauth_info, get_oauth_account, logged_in,
  refreshed, or_zero, time_of, or_modify, encrypted, after_update, token_of, beside_token,
  access_of,
}
use matrimail.Connector.Accounts.Stored.{
  CodecLaws, select-update_row, decrypt_string-encrypt_string,
}

-- the token, with the zero time for an expiry of 0
abbrev pub as_stored : Token → Token
as_stored t = record t { expiry = time_of (or_zero t.expiry) }

encrypt_under-filled :
    (k : Codec) (key n : Option Text) (text s : Text)
    → encrypt_under k key n text ≡ some s
    → is_empty s ≡ false
unfolding encrypt_under
encrypt_under-filled k none n text s h = cc
encrypt_under-filled k (some key) none text s h = cc
encrypt_under-filled k (some key) (some nonce_bytes) text [] h = ground (arith, h)
encrypt_under-filled k (some key) (some nonce_bytes) text (c ∷ s) h = refl

encrypt_string-filled :
    (k : Codec) (n : Option Text) (text s : Text)
    → encrypt_string k n text ≡ some s
    → is_empty s ≡ false
unfolding encrypt_string
encrypt_string-filled k n text s h = encrypt_under-filled k k.db_key n text s h

module _ (k : Codec) where
  encrypted-some :
      (refresh access : Option Text) (f : Text → Text → List Row) (rows : List Row)
      → encrypted k refresh access f ≡ some rows
      → (r : Text) × (a : Text) × (refresh ≡ some r) × (access ≡ some a) × (rows ≡ f r a)
  unfolding encrypted
  encrypted-some none access f rows h = cc
  encrypted-some (some r) none f rows h = cc
  encrypted-some (some r) (some a) f rows h = (r, a, refl, refl, ground (arith, h))

  affected-some :
      (o : Option Row) (changed rows' : List Row)
      → affected o changed ≡ some rows'
      → (r : Row) × (o ≡ some r) × (changed ≡ rows')
  affected-some none changed rows' h = cc
  affected-some (some r) changed rows' h = (r, refl, ground (arith, h))

  after_update-some :
      (user email : Text) (rows : List Row) (o : Option (List Row)) (rows' : List Row)
      → after_update k user email rows o ≡ some rows'
      → (r : Row) × (select user email rows ≡ some r) × (o ≡ some rows')
  unfolding after_update
  after_update-some user email rows none rows' h = cc
  after_update-some user email rows (some changed) rows' h =
      let (r, e, same) = affected-some (select user email rows) changed rows' h in
      (r, e, ap some same)

  select-updated :
      (user email : Text) (f : Row → Row) (rows : List Row) (r : Row)
      → ((x : Row) → is_row user email (f x) ≡ is_row user email x)
      → select user email rows ≡ some r
      → select user email (update_row user email f rows) ≡ some (f r)
  select-updated user email f rows r keep h =
      select-update_row user email user email f rows keep
      ∙ rw (text_eq_refl user, text_eq_refl email) (ap (Option.map f) h)

  -- what is read of a token under encryption
  read_token :
      (laws : CodecLaws k) (n1 n2 : Text) (tok : Token) (refresh access : Text)
      → length n1 ≡ nonce_size
      → length n2 ≡ nonce_size
      → encrypt_string k (some n1) tok.refresh_token ≡ some refresh
      → encrypt_string k (some n2) tok.access_token ≡ some access
      → token_of k (decrypt_string k refresh) (access_of k access) (or_zero tok.expiry)
        ≡ some (as_stored tok)
  unfolding token_of access_of
  read_token laws n1 n2 tok refresh access l1 l2 e1 e2 =
      rw
        (
          decrypt_string-encrypt_string k n1 tok.refresh_token refresh laws l1 e1,
          encrypt_string-filled k (some n2) tok.access_token access e2,
          decrypt_string-encrypt_string k n2 tok.access_token access laws l2 e2,
        )
        refl

  scope_of : Row → Text
  scope_of r = if is_empty (coalesce r.scope_mode []) then scope_full else coalesce r.scope_mode []

  oauth_info-logged_in :
      (provider refresh access scope : Text) (expiry now : ℕ) (r : Row) (t : Token)
      → is_empty refresh ≡ false
      → token_of k (decrypt_string k refresh) (access_of k access) expiry ≡ some t
      → oauth_info k (some (logged_in provider refresh access (or_modify scope) expiry now r))
        ≡ found (record {
          auth_type = auth_oauth_gmail;
          provider = provider;
          scope_mode = or_modify scope;
          token = some t;
          issued_at = time_of now;
        })
  unfolding oauth_info logged_in text_eq beside_token
  oauth_info-logged_in provider refresh access [] expiry now r t e f = rw e (rw f refl)
  oauth_info-logged_in provider refresh access (c ∷ scope) expiry now r t e f = rw e (rw f refl)

  beside_token-found :
      (info before : OAuthAccountInfo) (o : Option Token)
      → beside_token k info o ≡ found before
      → (before.scope_mode ≡ info.scope_mode) × (before.issued_at ≡ info.issued_at)
  unfolding beside_token
  beside_token-found info before none h = cc
  beside_token-found info before (some t) h = ground (arith, h)

  oauth_info-found :
      (r : Row) (before : OAuthAccountInfo)
      → oauth_info k (some r) ≡ found before
      → (before.scope_mode ≡ scope_of r)
        × (before.issued_at ≡ time_of (or_zero r.oauth_token_issued_at))
  unfolding oauth_info scope_of
  oauth_info-found r before h = elim (Bool-cases (is_oauth r.auth_type)) [
    | inr n ↦ let no_account : missing ≡ found before = rw n at h in cc
    | inl y ↦ elim (Bool-cases (is_empty (coalesce r.oauth_refresh_token []))) [
      | inl e ↦ let same = rw e at (rw y at h) in ground (arith, same)
      | inr f ↦ beside_token-found _ before _ (rw f at (rw y at h))
    ]
  ]

  oauth_info-refreshed :
      (provider refresh access : Text) (expiry : ℕ) (r : Row) (t : Token)
      → is_empty refresh ≡ false
      → token_of k (decrypt_string k refresh) (access_of k access) expiry ≡ some t
      → oauth_info k (some (refreshed provider refresh access expiry r))
        ≡ found (record {
          auth_type = auth_oauth_gmail;
          provider = provider;
          scope_mode = scope_of r;
          token = some t;
          issued_at = time_of (or_zero r.oauth_token_issued_at);
        })
  unfolding oauth_info refreshed text_eq beside_token scope_of
  oauth_info-refreshed provider refresh access expiry r t e f = rw e (rw f refl)

  -- Once SaveOAuthTokenWithScope has saved a token at the login, GetOAuthAccount gives it back: with
  -- the provider and the mode of the login, Google and "modify" if they are empty, issued at the
  -- time of the login.
  pub get_oauth_account-save_oauth_token_with_scope :
      (laws : CodecLaws k) (n1 n2 : Text) (now : ℕ) (user email provider scope : Text) (tok : Token)
      (rows rows' : List Row)
      → length n1 ≡ nonce_size
      → length n2 ≡ nonce_size
      → save_oauth_token_with_scope k (some n1) (some n2) now user email provider scope tok rows
        ≡ some rows'
      → get_oauth_account k user email rows'
        ≡ found (record {
          auth_type = auth_oauth_gmail;
          provider = or_google provider;
          scope_mode = or_modify scope;
          token = some (as_stored tok);
          issued_at = time_of now;
        })
  unfolding get_oauth_account save_oauth_token_with_scope
  get_oauth_account-save_oauth_token_with_scope laws n1 n2 now user email provider scope tok rows
        rows' l1 l2 h =
      let change = λ (refresh access : Text).
        update_row user email
          (logged_in (or_google provider) refresh access (or_modify scope) (or_zero tok.expiry) now)
          rows in
      let (r, at, o) = after_update-some user email rows _ rows' (h) in
      let (refresh, access, e1, e2, same) = encrypted-some _ _ change rows' o in
      rw same (
        rw
          (select-updated user email
            (logged_in (or_google provider) refresh access (or_modify scope) (or_zero tok.expiry)
              now)
            rows r (λ x. unfold logged_in in refl) at)
          (oauth_info-logged_in (or_google provider) refresh access scope (or_zero tok.expiry) now r
            (as_stored tok) (encrypt_string-filled k (some n1) tok.refresh_token refresh e1)
            (read_token laws n1 n2 tok refresh access l1 l2 e1 e2)))

  -- A token that SaveOAuthToken saves on a refresh is given back with the mode and the time of the
  -- login that were there; and the account is in OAuth mode, also if it was flagged as in need of a
  -- new login.
  pub get_oauth_account-save_oauth_token :
      (laws : CodecLaws k) (n1 n2 : Text) (user email provider : Text) (tok : Token)
      (rows rows' : List Row) (before : OAuthAccountInfo)
      → length n1 ≡ nonce_size
      → length n2 ≡ nonce_size
      → get_oauth_account k user email rows ≡ found before
      → save_oauth_token k (some n1) (some n2) user email provider tok rows ≡ some rows'
      → get_oauth_account k user email rows'
        ≡ found (record before {
          auth_type = auth_oauth_gmail;
          provider = or_google provider;
          token = some (as_stored tok);
        })
  unfolding get_oauth_account save_oauth_token
  get_oauth_account-save_oauth_token laws n1 n2 user email provider tok rows rows' before l1 l2 b
        h =
      let change = λ (refresh access : Text).
        update_row user email (refreshed (or_google provider) refresh access (or_zero tok.expiry))
          rows in
      let (r, at, o) = after_update-some user email rows _ rows' h in
      let (refresh, access, e1, e2, same) = encrypted-some _ _ change rows' o in
      let (scope, issued) = oauth_info-found r before (rw at at b) in
      rw same (
        rw
          (select-updated user email
            (refreshed (or_google provider) refresh access (or_zero tok.expiry)) rows r
            (λ x. unfold refreshed in refl) at)
          (rw (scope, issued)
            (oauth_info-refreshed (or_google provider) refresh access (or_zero tok.expiry) r
              (as_stored tok) (encrypt_string-filled k (some n1) tok.refresh_token refresh e1)
              (read_token laws n1 n2 tok refresh access l1 l2 e1 e2))))
