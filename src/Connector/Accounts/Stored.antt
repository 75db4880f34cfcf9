-- ===== src/Connector/Accounts/Stored.antt =====
-- What is stored in the table of accounts is what is read from it.
use matrimail.Prelude.Strings.Utf8.{is_utf8}
use matrimail.Prelude.Strings.{text_eq_refl}
use matrimail.Connector.Accounts.Query.{
  upsert_encrypted, account_with, found, account_of_row, oauth_info, upsert_account,
  get_oauth_account, get_account,
}
use matrimail.Email.Threading.{is_empty}
use mathlib.Core.Option
use mathlib.Core.Path.{ap₂}
use matrimail.Prelude.{
  All, Bool-cases, List, Option, [], ap, arith, drop, false, if◌then◌else◌, inl, inr, length,
  length-append, ltb, none, refl, some, sym, take, text_eq, text_eq_iff, true, ◌&&◌, ◌++◌, ◌∙◌, ◌∷◌,
  ◌≡◌, Text,
}
use matrimail.Connector.Accounts.{
  monitored_folders_json, inbox_json, inbox_only, folders_from_json, auth_password, decrypt_under,
  encrypt_under, decrypt_raw, is_empty, EmailAccount, Row, Codec, plain, encrypt_string,
  decrypt_string, select, update_row, insert_or_update, is_row, nonce_size, enc_prefix, new_row,
  overwritten,
}

-- Of AES-GCM and base64: what is sealed under a nonce is opened with it, and what is encoded is decoded.
pub record CodecLaws (k : Codec) : Type 0 where
  pub decode-encode : (t : Text) → k.decode (k.encode t) ≡ some t
  pub unseal-seal :
      (key nonce t : Text)
      → length nonce ≡ nonce_size
      → k.unseal key nonce (k.seal key nonce t) ≡ some t

-- Of encoding/json, on lists of strings: those that are valid UTF-8 are read back (in others it puts
-- U+FFFD for what is not valid), the text is not empty, and the list of INBOX alone is read as such.
pub record JsonLaws (k : Codec) : Type 0 where
  pub unmarshal-marshal :
      (fs : List Text) → All (λ f. is_utf8 f ≡ true) fs → k.unmarshal (k.marshal fs) ≡ some fs
  pub unmarshal-inbox : k.unmarshal inbox_json ≡ some inbox_only
  pub marshal-filled : (fs : List Text) → is_empty (k.marshal fs) ≡ false

take-append : (a b : Text) → take (length a) (a ++ b) ≡ a
take-append [] b = refl
take-append (c ∷ a) b = ap (λ t. c ∷ t) (take-append a b)

drop-append : (a b : Text) → drop (length a) (a ++ b) ≡ b
drop-append [] b = refl
drop-append (c ∷ a) b = drop-append a b

decrypt_raw-sealed :
    (k : Codec) (key n raw text : Text)
    → length n ≡ nonce_size
    → k.unseal key n raw ≡ some text
    → decrypt_raw k key (some (n ++ raw)) ≡ plain text
unfolding decrypt_raw
decrypt_raw-sealed k key n raw text l h =
    let long : ltb (length (n ++ raw)) nonce_size ≡ false = ground (arith, length-append n raw) in
    rw (long) (rw (sym l) (rw (take-append n raw, drop-append n raw) (rw h refl)))

encrypt_under-decrypt_under :
    (k : Codec) (key : Option Text) (n text s : Text)
    → CodecLaws k
    → length n ≡ nonce_size
    → encrypt_under k key (some n) text ≡ some s
    → (body : Text) × (s ≡ enc_prefix ++ body) × (decrypt_under k key body ≡ plain text)
unfolding encrypt_under decrypt_under
encrypt_under-decrypt_under k none n text s laws l h = cc
encrypt_under-decrypt_under k (some key) n text s laws l h =
    let raw = k.seal key n text in
    (
      k.encode (n ++ raw),
      ground (arith, h),
      ap (decrypt_raw k key) (laws.decode-encode (n ++ raw))
          ∙ decrypt_raw-sealed k key n raw text l (laws.unseal-seal key n text l),
    )

-- A text that is encrypted can be decrypted.
pub decrypt_string-encrypt_string :
    (k : Codec) (n text s : Text)
    → CodecLaws k
    → length n ≡ nonce_size
    → encrypt_string k (some n) text ≡ some s
    → decrypt_string k s ≡ plain text
unfolding encrypt_string decrypt_string
decrypt_string-encrypt_string k n text s laws l h =
    let (body, e, d) = encrypt_under-decrypt_under k k.db_key n text s laws l h in rw e d

row_after : EmailAccount → Text → Text → Option Row → Row
row_after a p f none = new_row a p f
row_after a p f (some r) = overwritten a p f r

-- two rows of the same key
is_row-same :
    (u e u' e' : Text) (r : Row)
    → is_row u e r ≡ true
    → is_row u' e' r ≡ (text_eq u u' && text_eq e e')
is_row-same u e u' e' r h = ground (arith, text_eq_iff r.user_mxid u, text_eq_iff r.email e)

is_row-other :
    (u e u' e' : Text) (r : Row)
    → is_row u e r ≡ false
    → is_row u' e' r ≡ true
    → (text_eq u u' && text_eq e e') ≡ false
is_row-other u e u' e' r h k = ground (
  arith,
  text_eq_iff r.user_mxid u,
  text_eq_iff r.email e,
  text_eq_iff r.user_mxid u',
  text_eq_iff r.email e',
  text_eq_iff u u',
  text_eq_iff e e',
)

select-insert_or_update :
    (u e : Text) (a : EmailAccount) (p f : Text) (rows : List Row)
    → select u e (insert_or_update a p f rows) ≡ (
        if text_eq a.user_mxid u && text_eq a.email e
        then some (row_after a p f (select u e rows))
        else select u e rows)
unfolding select insert_or_update row_after
select-insert_or_update u e a p f [] = unfold new_row in refl
select-insert_or_update u e a p f (r ∷ rows) =
    let same = text_eq a.user_mxid u && text_eq a.email e in
    elim (Bool-cases (is_row a.user_mxid a.email r)) [
      | inl y ↦ rw y (
          rw (is_row-same a.user_mxid a.email u e r y)
            (elim (Bool-cases same) [ inl b ↦ rw b refl | inr b ↦ rw b refl ]))
      | inr n ↦ rw n (elim (Bool-cases (is_row u e r)) [
        | inl b ↦ rw b (rw (is_row-other a.user_mxid a.email u e r n b) refl)
        | inr b ↦ rw b (select-insert_or_update u e a p f rows)
      ])
    ]

-- an update that keeps the key
pub select-update_row :
    (u e u' e' : Text) (f : Row → Row) (rows : List Row)
    → ((r : Row) → is_row u' e' (f r) ≡ is_row u' e' r)
    → select u' e' (update_row u e f rows) ≡ (
        if text_eq u u' && text_eq e e'
        then Option.map f (select u' e' rows)
        else select u' e' rows)
unfolding select update_row
select-update_row u e u' e' f [] keep = ground arith
select-update_row u e u' e' f (r ∷ rows) keep =
    let same = text_eq u u' && text_eq e e' in
    elim (Bool-cases (is_row u e r)) [
      | inl y ↦ rw y (
          rw (keep r) (
            rw (is_row-same u e u' e' r y) (elim (Bool-cases same) [
              | inl b ↦ rw b refl
              | inr b ↦ rw b (select-update_row u e u' e' f rows keep ∙ rw b refl)
            ])))
      | inr n ↦ rw n (elim (Bool-cases (is_row u' e' r)) [
        | inl b ↦ rw b (rw (is_row-other u e u' e' r n b) refl)
        | inr b ↦ rw b (select-update_row u e u' e' f rows keep)
      ])
    ]

abbrev filled : List Text → List Text
filled [] = inbox_only
filled (f ∷ fs) = f ∷ fs

folders_from_json-monitored_folders_json :
    (k : Codec) (fs : List Text)
    → JsonLaws k
    → All (λ f. is_utf8 f ≡ true) fs
    → folders_from_json k (monitored_folders_json k fs) ≡ filled fs
unfolding folders_from_json monitored_folders_json
folders_from_json-monitored_folders_json k [] laws valid = ground (arith, laws.unmarshal-inbox)
folders_from_json-monitored_folders_json k (f ∷ fs) laws valid =
    ground (arith, laws.marshal-filled (f ∷ fs), laws.unmarshal-marshal (f ∷ fs) valid)

-- What is read back of an account that is saved over `old`: what was saved, with the INBOX for no
-- folder, but for the time of creation and the kind of login, which stay those of the old row.
pub stored_account : EmailAccount → Option Row → EmailAccount
stored_account a none = record a {
  monitored_folders = filled a.monitored_folders;
  auth_type = auth_password;
}
stored_account a (some r) = record a {
  monitored_folders = filled a.monitored_folders;
  created_at = r.created_at;
  auth_type = r.auth_type;
}

select-is_row :
    (u e : Text) (rows : List Row) (r : Row)
    → select u e rows ≡ some r
    → (r.user_mxid ≡ u) × (r.email ≡ e)
unfolding select
select-is_row u e [] r h = cc
select-is_row u e (x ∷ rows) r h = elim (Bool-cases (is_row u e x)) [
  | inl y ↦
      let same : some x ≡ some r = rw y at h in
      ground (arith, same, y, text_eq_iff x.user_mxid u, text_eq_iff x.email e)
  | inr n ↦ select-is_row u e rows r (rw n at h)
]

account_with-row_after :
    (k : Codec) (a : EmailAccount) (p : Text) (old : Option Row)
    → JsonLaws k
    → All (λ f. is_utf8 f ≡ true) a.monitored_folders
    → ((r : Row) → old ≡ some r → (r.user_mxid ≡ a.user_mxid) × (r.email ≡ a.email))
    → account_with k
        (row_after a p (monitored_folders_json k a.monitored_folders) old)
        (plain a.password)
      ≡ found (stored_account a old)
unfolding account_with row_after new_row overwritten stored_account
account_with-row_after k a p none laws valid key =
    rw (folders_from_json-monitored_folders_json k a.monitored_folders laws valid) refl
account_with-row_after k a p (some r) laws valid key =
    let (u, e) = key r refl in
    rw (folders_from_json-monitored_folders_json k a.monitored_folders laws valid) (
      ap
        (λ (k : Text × Text). found (record a {
          user_mxid = k.0;
          email = k.1;
          monitored_folders = filled a.monitored_folders;
          created_at = r.created_at;
          auth_type = r.auth_type;
        }))
        (ap₂ (λ x y. (x, y)) u e))

upserted :
    (k : Codec) (n : Option Text) (a : EmailAccount) (rows rows' : List Row)
    → upsert_account k n a rows ≡ some rows'
    → (p : Text) × (encrypt_string k n a.password ≡ some p)
      × (rows' ≡ insert_or_update a p (monitored_folders_json k a.monitored_folders) rows)
unfolding upsert_account upsert_encrypted
upserted k n a rows rows' h = some_password (encrypt_string k n a.password) h
  where
    some_password :
        (o : Option Text)
        → upsert_encrypted k a o rows ≡ some rows'
        → (p : Text) × (o ≡ some p)
          × (rows' ≡ insert_or_update a p (monitored_folders_json k a.monitored_folders) rows)
    some_password none h = cc
    some_password (some p) h = (p, refl, ground (arith, h))

row_after-password :
    (a : EmailAccount) (p f : Text) (old : Option Row) → (row_after a p f old).password ≡ p
unfolding row_after new_row overwritten
row_after-password a p f none = refl
row_after-password a p f (some r) = refl

-- An account that UpsertAccount has saved, with names of folders that are valid UTF-8, is read back by
-- GetAccount, with its password; all other accounts are read as before.
pub get_account-upsert_account :
    (k : Codec) (n : Text) (a : EmailAccount) (rows rows' : List Row)
    → CodecLaws k
    → JsonLaws k
    → All (λ f. is_utf8 f ≡ true) a.monitored_folders
    → length n ≡ nonce_size
    → upsert_account k (some n) a rows ≡ some rows'
    → (get_account k a.user_mxid a.email rows'
        ≡ found (stored_account a (select a.user_mxid a.email rows)))
      × ((u e : Text)
          → (text_eq a.user_mxid u && text_eq a.email e) ≡ false
          → get_account k u e rows' ≡ get_account k u e rows)
unfolding get_account account_of_row
get_account-upsert_account k n a rows rows' laws json valid l h =
    let (p, e, r) = upserted k (some n) a rows rows' h in
    let f = monitored_folders_json k a.monitored_folders in
    let d = decrypt_string-encrypt_string k n a.password p laws l e in
    let old = select a.user_mxid a.email rows in
    let own : select a.user_mxid a.email rows' ≡ some (row_after a p f old) = rw r (
      rw (select-insert_or_update a.user_mxid a.email a p f rows)
        (rw (text_eq_refl a.user_mxid, text_eq_refl a.email) refl)) in
    (
      rw own (
          rw (row_after-password a p f old) (
            rw d (
              account_with-row_after k a p old json valid
                (select-is_row a.user_mxid a.email rows)))),
      λ u e other. rw r (rw (select-insert_or_update u e a p f rows) (rw other refl)),
    )

oauth_info-row_after :
    (k : Codec) (a : EmailAccount) (p f : Text) (old : Option Row)
    → oauth_info k (some (row_after a p f old)) ≡ oauth_info k old
unfolding oauth_info row_after new_row overwritten text_eq
oauth_info-row_after k a p f none = refl
oauth_info-row_after k a p f (some r) = refl

-- UpsertAccount, by which a login with a password is saved, changes nothing of what GetOAuthAccount
-- says of any account: an account that was in OAuth mode stays so, with its token and its mode.
pub get_oauth_account-upsert_account :
    (k : Codec) (n : Option Text) (a : EmailAccount) (rows rows' : List Row) (u e : Text)
    → upsert_account k n a rows ≡ some rows'
    → get_oauth_account k u e rows' ≡ get_oauth_account k u e rows
unfolding get_oauth_account
get_oauth_account-upsert_account k n a rows rows' u e h =
    let (p, x, r) = upserted k n a rows rows' h in
    let f = monitored_folders_json k a.monitored_folders in
    rw r (
      rw (select-insert_or_update u e a p f rows)
        (elim (Bool-cases (text_eq a.user_mxid u && text_eq a.email e)) [
          | inl b ↦ rw b (oauth_info-row_after k a p f (select u e rows))
          | inr b ↦ rw b refl
        ]))
