-- ===== src/Connector/Login/Steps.antt =====
-- The steps of the login.
pub mod Sound
pub mod Saved
use matrimail.Prelude.TextMap.{TextMap, lookup}
use matrimail.Prelude.Strings.Lines.{split_on}
use matrimail.Prelude.Strings.{trim_space, to_lower}
use matrimail.Email.Threading.{is_empty}
use matrimail.Imap.Folders.{FolderInfo, ListData, categorize_folders}
use matrimail.Connector.Login.{literal_inbox, FolderSelectionResult, validate_folder_selection}
use matrimail.Prelude.{
  ◌+◌, Bool, List, Option, Text, [], codes, false, if◌then◌else◌, inl, inr, none, some, text_eq,
  true, ◌++◌, ◌||◌, ◌∷◌, ◌⊎◌,
}

pub data LoginStep : Type 0 where
  credentials : LoginStep
  folder_selection : LoginStep
  confirmation : LoginStep

-- The port is always 993, with TLS.
pub record EmailAccount : Type 0 where
  pub email : Text
  pub username : Text
  pub password : Text
  pub host : Text
  pub monitored_folders : List Text

-- `account` is what the login has put into the database.
pub record EmailLoginProcess : Type 0 where
  pub email : Text
  pub username : Text
  pub password : Text
  pub current_step : LoginStep
  pub available_folders : List FolderInfo
  pub selected_folders : List FolderInfo
  pub selected_names : List Text
  pub account : Option EmailAccount

-- what comes of connecting and of listing the folders
pub data Opened : Type 0 where
  not_connected : Opened
  not_listed : Opened
  listed : List ListData → Opened

-- the server's answer by address, user name and password, and whether UpsertAccount and NewLogin work
pub record LoginAnswers : Type 0 where
  pub opened : Text → Text → Text → Opened
  pub upserts : Bool
  pub creates : Bool

pub data LoginError : Type 0 where
  email_required : LoginError
  password_required : LoginError
  connection_failed : LoginError
  cancelled : LoginError
  invalid_email : LoginError
  account_not_saved : LoginError
  login_not_created : LoginError

pub data LoginResult : Type 0 where
  login_failed : LoginError → LoginResult
  prompt : LoginStep → LoginResult
  complete : Text → LoginResult

-- CommonProviders of pkg/imap/client.go
abbrev common_providers : TextMap Text
common_providers =
    (codes "gmail.com", codes "imap.gmail.com")
    ∷ (codes "googlemail.com", codes "imap.gmail.com")
    ∷ (codes "outlook.com", codes "outlook.office365.com")
    ∷ (codes "hotmail.com", codes "outlook.office365.com")
    ∷ (codes "live.com", codes "outlook.office365.com")
    ∷ (codes "msn.com", codes "outlook.office365.com")
    ∷ (codes "yahoo.com", codes "imap.mail.yahoo.com")
    ∷ (codes "yahoo.co.uk", codes "imap.mail.yahoo.com")
    ∷ (codes "yahoo.fr", codes "imap.mail.yahoo.com")
    ∷ (codes "yahoo.de", codes "imap.mail.yahoo.com")
    ∷ (codes "fastmail.com", codes "imap.fastmail.com")
    ∷ (codes "icloud.com", codes "imap.mail.me.com")
    ∷ (codes "me.com", codes "imap.mail.me.com")
    ∷ (codes "mac.com", codes "imap.mail.me.com")
    ∷ []

unfoldable pub host_of : Text → Text
unfolding lookup
host_of domain = elim (lookup domain common_providers) [
  | some host ↦ host
  | none ↦ codes "imap." ++ domain
]

-- the part after the one "@" of the address
domain_of : List Text → Option Text
domain_of (user ∷ domain ∷ []) = some (to_lower domain)
domain_of (user ∷ []) = none
domain_of [] = none
domain_of (a ∷ b ∷ c ∷ parts) = none

account_of : EmailLoginProcess → Text → EmailAccount
unfolding host_of
account_of p domain = record {
  email = p.email;
  username = p.username;
  password = p.password;
  host = host_of domain;
  monitored_folders = p.selected_names;
}

unfoldable pub save_account : Bool → EmailLoginProcess → EmailAccount ⊎ LoginError
unfolding domain_of account_of split_on
save_account upserts p = elim (domain_of (split_on b'@' p.email)) [
  | none ↦ inr invalid_email
  | some domain ↦ if upserts then inl (account_of p domain) else inr account_not_saved
]

saved :
    LoginAnswers → EmailLoginProcess → EmailAccount ⊎ LoginError → EmailLoginProcess × LoginResult
saved a p (inr e) = (p, login_failed e)
saved a p (inl account) = (
  record p { account = some account },
  (if a.creates then complete (codes "email:" ++ p.email) else login_failed login_not_created),
)

unfoldable pub complete_login : LoginAnswers → EmailLoginProcess → EmailLoginProcess × LoginResult
unfolding saved save_account
complete_login a p = saved a p (save_account a.upserts p)

-- INBOX alone, without a choice
unfoldable pub complete_with_inbox :
    LoginAnswers → EmailLoginProcess → EmailLoginProcess × LoginResult
unfolding complete_login
complete_with_inbox a p =
    complete_login a
      (record p { selected_names = codes "INBOX" ∷ []; selected_folders = literal_inbox ∷ [] })

unfoldable pub offer :
    LoginAnswers → EmailLoginProcess → List FolderInfo → EmailLoginProcess × LoginResult
unfolding complete_with_inbox
offer a p [] = complete_with_inbox a (record p { available_folders = [] })
offer a p (f ∷ fs) = (
  record p { available_folders = f ∷ fs; current_step = folder_selection },
  prompt folder_selection,
)

on_opened : LoginAnswers → EmailLoginProcess → Opened → EmailLoginProcess × LoginResult
unfolding offer categorize_folders
on_opened a p not_connected = (p, login_failed connection_failed)
on_opened a p not_listed = complete_with_inbox a p
on_opened a p (listed mbs) = offer a p (categorize_folders mbs)

entered : Option Text → Text → Text
entered none old = old
entered (some v) old = trim_space v

-- what the input says of the address and the password
take_credentials : TextMap Text → EmailLoginProcess → EmailLoginProcess
unfolding entered lookup
take_credentials input p =
    let email = entered (lookup (codes "email") input) p.email in
    record p {
      email = email;
      password = entered (lookup (codes "password") input) p.password;
      username = (if is_empty p.username then email else p.username);
    }

unfoldable pub handle_credentials :
    LoginAnswers → TextMap Text → EmailLoginProcess → EmailLoginProcess × LoginResult
unfolding take_credentials on_opened
handle_credentials a input old =
    let p = take_credentials input old in
    if is_empty p.email
    then (p, login_failed email_required)
    else if is_empty p.password
    then (p, login_failed password_required)
    else on_opened a p (a.opened p.email p.username p.password)

unfoldable pub given : Text → TextMap Text → Text
unfolding lookup
given key input = elim (lookup key input) [ none ↦ [] | some v ↦ v ]

on_selection : FolderSelectionResult → EmailLoginProcess → EmailLoginProcess × LoginResult
on_selection r p =
    if r.is_cancel
    then (p, login_failed cancelled)
    else if r.valid
    then (
      record p {
        selected_names = r.selected_names;
        selected_folders = r.selected_infos;
        current_step = confirmation;
      },
      prompt confirmation,
    )
    else (p, prompt folder_selection)

unfoldable pub handle_folder_selection :
    TextMap Text → EmailLoginProcess → EmailLoginProcess × LoginResult
unfolding on_selection validate_folder_selection given
handle_folder_selection input p =
    on_selection
      (validate_folder_selection (given (codes "folder_selection") input) p.available_folders) p

-- confirmed and goBack
unfoldable pub validate_confirmation : Text → Bool × Bool
validate_confirmation raw =
    let input = trim_space (to_lower raw) in
    if text_eq input (codes "yes") || text_eq input (codes "y")
    then (true, false)
    else if text_eq input (codes "no") || text_eq input (codes "n")
    then (false, true)
    else (false, false)

unfoldable pub handle_confirmation :
    LoginAnswers → TextMap Text → EmailLoginProcess → EmailLoginProcess × LoginResult
unfolding validate_confirmation complete_login given
handle_confirmation a input p =
    let (confirmed, go_back) = validate_confirmation (given (codes "confirmation") input) in
    if go_back
    then (record p { current_step = folder_selection }, prompt folder_selection)
    else if confirmed
    then complete_login a p
    else (p, prompt confirmation)

at_step :
    LoginStep → LoginAnswers → TextMap Text → EmailLoginProcess → EmailLoginProcess × LoginResult
unfolding handle_credentials handle_folder_selection handle_confirmation
at_step credentials a input p = handle_credentials a input p
at_step folder_selection a input p = handle_folder_selection input p
at_step confirmation a input p = handle_confirmation a input p

unfoldable pub submit_user_input :
    LoginAnswers → TextMap Text → EmailLoginProcess → EmailLoginProcess × LoginResult
unfolding at_step
submit_user_input a input p = at_step p.current_step a input p

abbrev pub new_login : EmailLoginProcess
new_login = record {
  email = [];
  username = [];
  password = [];
  current_step = credentials;
  available_folders = [];
  selected_folders = [];
  selected_names = [];
  account = none;
}

-- one submission after the other
unfoldable pub submit_all :
    List (LoginAnswers × TextMap Text) → EmailLoginProcess → EmailLoginProcess
unfolding submit_user_input
submit_all [] p = p
submit_all ((a, input) ∷ inputs) p = submit_all inputs (submit_user_input a input p).0
