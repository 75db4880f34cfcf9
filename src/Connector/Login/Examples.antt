-- ===== src/Connector/Login/Examples.antt =====
-- A login that chooses a folder by its number, goes back and takes another one.
use matrimail.Prelude.TextMap.{TextMap}
use matrimail.Connector.Login.Steps.Saved.{submit_all-IsUsable}
use matrimail.Connector.Login.{pos, out_of_range, validate_folder_selection}
use matrimail.Connector.Login.Steps.Sound.{IsUsable, Lists}
use matrimail.Connector.Login.Steps.{
  not_connected, not_listed, listed, new_login, Opened, EmailAccount, submit_all, LoginAnswers,
}
use matrimail.Imap.Folders.{junk, ListData}
use matrimail.Prelude.{
  ◌-◌, ◌/◌, text_eq, List, String, Text, [], ap, codes, refl, some, sym, true, ◌∷◌, ◌≡◌,
}

abbrev mailboxes : List ListData
mailboxes =
    record { mailbox = codes "Work"; attrs = [] }
    ∷ record { mailbox = codes "[Gmail]/Spam"; attrs = junk ∷ [] }
    ∷ record { mailbox = codes "INBOX"; attrs = [] }
    ∷ []

abbrev server : LoginAnswers
server = record {
  opened = λ email username password. listed mailboxes;
  upserts = true;
  creates = true;
}

found_in : Opened → List ListData
found_in (listed mbs) = mbs
found_in not_listed = []
found_in not_connected = []

server-Lists : Lists mailboxes server
unfolding found_in
server-Lists email username password found e = ap found_in (sym e)

abbrev typed : String → String → LoginAnswers × TextMap Text
typed key value = (server, (codes key, codes value) ∷ [])

abbrev submissions : List (LoginAnswers × TextMap Text)
submissions =
    (server, (codes "email", codes " ann@me.com ") ∷ (codes "password", codes "pw") ∷ [])
    ∷ typed "folder_selection" "1, 1"
    ∷ typed "confirmation" "No"
    ∷ typed "folder_selection" "2"
    ∷ typed "confirmation" "y"
    ∷ []

abbrev ann : EmailAccount
ann = record {
  email = codes "ann@me.com";
  username = codes "ann@me.com";
  password = codes "pw";
  host = codes "imap.mail.me.com";
  monitored_folders = codes "Work" ∷ [];
}

ann_saved : (submit_all submissions new_login).account ≡ some ann
unfolding submit_all text_eq matrimail.Prelude.Strings.trim_space matrimail.Prelude.Strings.contains
ann_saved = refl

submit_all-IsUsable_example : IsUsable mailboxes ann
submit_all-IsUsable_example =
    submit_all-IsUsable mailboxes submissions ann
      (server-Lists, (server-Lists, (server-Lists, (server-Lists, (server-Lists, tt))))) ann_saved

bad_number :
    (validate_folder_selection (codes "1,x") []).error_message ≡ some (out_of_range (pos 1))
unfolding validate_folder_selection matrimail.Prelude.Strings.trim_space text_eq
bad_number = refl
