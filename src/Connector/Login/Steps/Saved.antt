-- ===== src/Connector/Login/Steps/Saved.antt =====
-- What a login with a password saves.
use matrimail.Connector.Login.Steps.Sound.{
  offer-IsSound, IsUsable, complete_login-IsSound, complete_with_inbox-IsSound, Lists,
  IsMonitorable, IsSound,
}
use matrimail.Connector.Login.Steps.{
  validate_folder_selection, not_connected, not_listed, listed, categorize_folders, given,
  validate_confirmation, FolderSelectionResult, new_login, LoginStep, folder_selection, Opened,
  submit_user_input, take_credentials, handle_folder_selection, handle_confirmation, TextMap,
  at_step, on_opened, submit_all, on_selection, handle_credentials,
}
use matrimail.Connector.Login.Chosen.{validate_folder_selection-IsChoice, IsChoice}
use matrimail.Email.Threading.{is_empty}
use matrimail.Connector.Login.Steps.{
  confirmation, credentials, listed, EmailLoginProcess, LoginAnswers, EmailAccount,
}
use matrimail.Imap.Folders.Shown.{categorize_folders-is_shown, is_shown}
use matrimail.Imap.Folders.{FolderInfo, ListData}
use matrimail.Prelude.{
  Bool-cases, All, List, Text, [], codes, false, inl, inr, refl, some, true, ◌∷◌, ◌≡◌, ◌≢◌,
}

module _ (mbs : List ListData) where
  monitorable :
      (fs : List FolderInfo)
      → All (λ (f : FolderInfo). is_shown mbs f.name ≡ true) fs
      → All (λ (f : FolderInfo). IsMonitorable mbs f.name) fs
  monitorable [] h = tt
  monitorable (f ∷ fs) (p, h) = (inr p, monitorable fs h)

  on_opened-IsSound :
      (a : LoginAnswers) (p : EmailLoginProcess) (o : Opened)
      → ((found : List ListData) → o ≡ listed found → found ≡ mbs)
      → IsSound mbs p
      → is_empty p.email ≡ false
      → is_empty p.password ≡ false
      → IsSound mbs (on_opened a p o).0
  unfolding on_opened
  on_opened-IsSound a p not_connected l s e w = s
  on_opened-IsSound a p not_listed l s e w = complete_with_inbox-IsSound mbs a p s e w
  on_opened-IsSound a p (listed found) l s e w =
      offer-IsSound mbs a p (categorize_folders found) s e w
        (rw (l found refl) (monitorable (categorize_folders mbs) (categorize_folders-is_shown mbs)))

  take_credentials-IsSound :
      (input : TextMap Text) (p : EmailLoginProcess)
      → p.current_step ≡ credentials
      → IsSound mbs p
      → IsSound mbs (take_credentials input p)
  unfolding take_credentials
  take_credentials-IsSound input p c s = record {
    offered = s.offered;
    address = λ n. elim (n c) [ ];
    secret = λ n. elim (n c) [ ];
    chosen = s.chosen;
    kept = s.kept;
  }

  handle_credentials-IsSound :
      (a : LoginAnswers) (input : TextMap Text) (p : EmailLoginProcess)
      → Lists mbs a
      → p.current_step ≡ credentials
      → IsSound mbs p
      → IsSound mbs (handle_credentials a input p).0
  unfolding handle_credentials
  handle_credentials-IsSound a input p l c s =
      let q = take_credentials input p in
      let ok = take_credentials-IsSound input p c s in
      elim (Bool-cases (is_empty q.email)) [
        | inl t ↦ rw t ok
        | inr e ↦ rw e (elim (Bool-cases (is_empty q.password)) [
          | inl t ↦ rw t ok
          | inr w ↦ rw w (
              on_opened-IsSound a q (a.opened q.email q.username q.password)
                (l q.email q.username q.password) ok e w)
        ])
      ]

  on_selection-IsSound :
      (r : FolderSelectionResult) (p : EmailLoginProcess)
      → p.current_step ≡ folder_selection
      → IsSound mbs p
      → (r.valid ≡ true → IsChoice (IsMonitorable mbs) r.selected_names)
      → IsSound mbs (on_selection r p).0
  unfolding on_selection
  on_selection-IsSound r p c s k = elim (Bool-cases r.is_cancel) [
    | inl t ↦ rw t s
    | inr f ↦ rw f (elim (Bool-cases r.valid) [
      | inr g ↦ rw g s
      | inl v ↦ rw v (record {
        offered = s.offered;
        address = λ n. s.address (λ h. cc);
        secret = λ n. s.secret (λ h. cc);
        chosen = λ h. k v;
        kept = s.kept;
      })
    ])
  ]

  handle_folder_selection-IsSound :
      (input : TextMap Text) (p : EmailLoginProcess)
      → p.current_step ≡ folder_selection
      → IsSound mbs p
      → IsSound mbs (handle_folder_selection input p).0
  unfolding handle_folder_selection
  handle_folder_selection-IsSound input p c s =
      on_selection-IsSound
        (validate_folder_selection (given (codes "folder_selection") input) p.available_folders) p c
        s
        (validate_folder_selection-IsChoice (IsMonitorable mbs) p.available_folders (inl refl)
          s.offered (given (codes "folder_selection") input))

  handle_confirmation-IsSound :
      (a : LoginAnswers) (input : TextMap Text) (p : EmailLoginProcess)
      → p.current_step ≡ confirmation
      → IsSound mbs p
      → IsSound mbs (handle_confirmation a input p).0
  unfolding handle_confirmation
  handle_confirmation-IsSound a input p c s =
      let answer = validate_confirmation (given (codes "confirmation") input) in
      let past : p.current_step ≢ credentials = λ h. cc in
      elim (Bool-cases answer.1) [
        | inl t ↦ rw t (record {
          offered = s.offered;
          address = λ n. s.address past;
          secret = λ n. s.secret past;
          chosen = λ h. cc;
          kept = s.kept;
        })
        | inr f ↦ rw f (elim (Bool-cases answer.0) [
          | inl y ↦
              rw y (complete_login-IsSound mbs a p s (s.address past) (s.secret past) (s.chosen c))
          | inr n ↦ rw n s
        ])
      ]

  at_step-IsSound :
      (step : LoginStep) (a : LoginAnswers) (input : TextMap Text) (p : EmailLoginProcess)
      → Lists mbs a
      → p.current_step ≡ step
      → IsSound mbs p
      → IsSound mbs (at_step step a input p).0
  unfolding at_step
  at_step-IsSound credentials a input p l c s = handle_credentials-IsSound a input p l c s
  at_step-IsSound folder_selection a input p l c s = handle_folder_selection-IsSound input p c s
  at_step-IsSound confirmation a input p l c s = handle_confirmation-IsSound a input p c s

  submit_all-IsSound :
      (inputs : List (LoginAnswers × TextMap Text)) (p : EmailLoginProcess)
      → All (λ i. Lists mbs i.0) inputs
      → IsSound mbs p
      → IsSound mbs (submit_all inputs p)
  unfolding submit_all submit_user_input
  submit_all-IsSound [] p l s = s
  submit_all-IsSound ((a, input) ∷ inputs) p (l, ls) s =
      submit_all-IsSound inputs (submit_user_input a input p).0 ls
        (at_step-IsSound p.current_step a input p l refl s)

  -- Whatever is submitted to a new login, in any number of steps and whether or not they fail, on a
  -- server that lists the same mailboxes each time: the account that is saved, if one is, has an
  -- address and a password and monitors at least one folder, and only INBOX and folders that the
  -- server lists and that are not hidden.
  pub submit_all-IsUsable :
      (inputs : List (LoginAnswers × TextMap Text)) (acct : EmailAccount)
      → All (λ i. Lists mbs i.0) inputs
      → (submit_all inputs new_login).account ≡ some acct
      → IsUsable mbs acct
  submit_all-IsUsable inputs acct l h =
      (submit_all-IsSound inputs new_login l (record {
        offered = tt;
        address = λ n. elim (n refl) [ ];
        secret = λ n. elim (n refl) [ ];
        chosen = λ c. cc;
        kept = λ b e. cc;
      })).kept
        acct h
