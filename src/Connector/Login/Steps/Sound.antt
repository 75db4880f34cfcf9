-- ===== src/Connector/Login/Steps/Sound.antt =====
-- What holds between the steps of a login, and the ways in which it ends.
use matrimail.Connector.Login.Steps.{listed, LoginError, saved, account_of, offer, domain_of}
use matrimail.Connector.Login.Chosen.{IsChoice}
use matrimail.Email.Threading.{is_empty}
use matrimail.Connector.Login.Steps.{
  confirmation, credentials, listed, EmailLoginProcess, complete_with_inbox, save_account,
  complete_login, LoginAnswers, EmailAccount,
}
use matrimail.Imap.Folders.Shown.{is_shown}
use matrimail.Imap.Folders.{FolderInfo, ListData}
use matrimail.Prelude.Strings.Lines.{split_on}
use matrimail.Prelude.{
  All, Bool, List, Option-cases, Text, [], arith, codes, false, inl, inr, refl, some, sym, true,
  ◌∷◌, ◌≡◌, ◌≢◌, ◌⊎◌,
}

-- the names that may be saved: INBOX, and those of the mailboxes that are listed and not hidden
abbrev pub IsMonitorable : List ListData → Text → Type 0
IsMonitorable mbs name = (name ≡ codes "INBOX") ⊎ (is_shown mbs name ≡ true)

pub record IsUsable (mbs : List ListData) (a : EmailAccount) : Type 0 where
  pub address : is_empty a.email ≡ false
  pub secret : is_empty a.password ≡ false
  pub folders : IsChoice (IsMonitorable mbs) a.monitored_folders

-- every list of folders that the server gives is this one
abbrev pub Lists : List ListData → LoginAnswers → Type 0
Lists mbs a =
    (email username password : Text) (found : List ListData)
    → a.opened email username password ≡ listed found
    → found ≡ mbs

module _ (mbs : List ListData) where
  -- what holds between the steps
  pub record IsSound (p : EmailLoginProcess) : Type 0 where
    pub offered : All (λ (f : FolderInfo). IsMonitorable mbs f.name) p.available_folders
    pub address : p.current_step ≢ credentials → is_empty p.email ≡ false
    pub secret : p.current_step ≢ credentials → is_empty p.password ≡ false
    pub chosen : p.current_step ≡ confirmation → IsChoice (IsMonitorable mbs) p.selected_names
    pub kept : (a : EmailAccount) → p.account ≡ some a → IsUsable mbs a

  saved-IsSound :
      (a : LoginAnswers) (p : EmailLoginProcess) (q : EmailAccount ⊎ LoginError)
      → IsSound p
      → ((acct : EmailAccount) → q ≡ inl acct → IsUsable mbs acct)
      → IsSound (saved a p q).0
  unfolding saved
  saved-IsSound a p (inr e) s u = s
  saved-IsSound a p (inl acct) s u = record {
    offered = s.offered;
    address = s.address;
    secret = s.secret;
    chosen = s.chosen;
    kept = λ b e. let same : acct ≡ b = cc in rw (sym same) (u acct refl);
  }

  save_account-IsUsable :
      (upserts : Bool) (p : EmailLoginProcess) (acct : EmailAccount)
      → is_empty p.email ≡ false
      → is_empty p.password ≡ false
      → IsChoice (IsMonitorable mbs) p.selected_names
      → save_account upserts p ≡ inl acct
      → IsUsable mbs acct
  unfolding save_account account_of
  save_account-IsUsable upserts p acct e s c h =
      elim (Option-cases (domain_of (split_on b'@' p.email))) [
        | inl n ↦ ground arith
        | inr (domain, d) ↦
            let same : account_of p domain ≡ acct = ground arith in
            rw (sym same) (record { address = e; secret = s; folders = c })
      ]

  pub complete_login-IsSound :
      (a : LoginAnswers) (p : EmailLoginProcess)
      → IsSound p
      → is_empty p.email ≡ false
      → is_empty p.password ≡ false
      → IsChoice (IsMonitorable mbs) p.selected_names
      → IsSound (complete_login a p).0
  unfolding complete_login
  complete_login-IsSound a p s e w c =
      saved-IsSound a p (save_account a.upserts p) s
        (λ acct h. save_account-IsUsable a.upserts p acct e w c h)

  pub complete_with_inbox-IsSound :
      (a : LoginAnswers) (p : EmailLoginProcess)
      → IsSound p
      → is_empty p.email ≡ false
      → is_empty p.password ≡ false
      → IsSound (complete_with_inbox a p).0
  unfolding complete_with_inbox
  complete_with_inbox-IsSound a p s e w =
      complete_login-IsSound a _
        (record {
          offered = s.offered;
          address = s.address;
          secret = s.secret;
          chosen = λ h. (omega arith, (inl refl, tt));
          kept = s.kept;
        })
        e w (omega arith, (inl refl, tt))

  pub offer-IsSound :
      (a : LoginAnswers) (p : EmailLoginProcess) (fs : List FolderInfo)
      → IsSound p
      → is_empty p.email ≡ false
      → is_empty p.password ≡ false
      → All (λ (f : FolderInfo). IsMonitorable mbs f.name) fs
      → IsSound (offer a p fs).0
  unfolding offer
  offer-IsSound a p [] s e w h =
      complete_with_inbox-IsSound a (record p { available_folders = [] })
        (record {
          offered = tt;
          address = s.address;
          secret = s.secret;
          chosen = s.chosen;
          kept = s.kept;
        })
        e w
  offer-IsSound a p (f ∷ fs) s e w h = record {
    offered = h;
    address = λ n. e;
    secret = λ n. w;
    chosen = λ c. cc;
    kept = s.kept;
  }
