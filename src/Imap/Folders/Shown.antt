-- ===== src/Imap/Folders/Shown.antt =====
-- A login offers only folders that the server lists and that are not hidden.
use matrimail.Prelude.Strings.{text_eq_refl}
use matrimail.Imap.Folders.{
  folder_less, FolderInfo, is_hidden_folder, ListData, folder_info, sort_folders_by_type,
  insert_folder, shown_folders, categorize_folders,
}
use matrimail.Prelude.{
  All, Bool, Bool-cases, List, Text, [], any, arith, false, inl, inr, not, text_eq, true, ◌&&◌, ◌∷◌,
  ◌≡◌,
}

-- whether the server lists a mailbox of this name that is not hidden
unfoldable pub is_shown : List ListData → Text → Bool
unfolding any
is_shown mbs name = any (λ mb. text_eq mb.mailbox name && not (is_hidden_folder mb)) mbs

All-insert_folder :
    (P : FolderInfo → Type 0) (f : FolderInfo) (fs : List FolderInfo)
    → P f
    → All P fs
    → All P (insert_folder f fs)
unfolding insert_folder
All-insert_folder P f [] p h = (p, tt)
All-insert_folder P f (g ∷ gs) p (q, h) = elim (Bool-cases (folder_less g f)) [
  | inl t ↦ rw t (q, All-insert_folder P f gs p h)
  | inr n ↦ rw n (p, (q, h))
]

All-sort_folders_by_type :
    (P : FolderInfo → Type 0) (fs : List FolderInfo) → All P fs → All P (sort_folders_by_type fs)
unfolding sort_folders_by_type
All-sort_folders_by_type P [] h = tt
All-sort_folders_by_type P (f ∷ fs) (p, h) =
    All-insert_folder P f (sort_folders_by_type fs) p (All-sort_folders_by_type P fs h)

name-folder_info : (mb : ListData) → (folder_info mb).name ≡ mb.mailbox
unfolding folder_info
name-folder_info mb = ground arith

All-shown_folders :
    (listed mbs : List ListData)
    → ((name : Text) → is_shown mbs name ≡ true → is_shown listed name ≡ true)
    → All (λ f. is_shown listed f.name ≡ true) (shown_folders mbs)
unfolding shown_folders
All-shown_folders listed [] up = tt
All-shown_folders listed (mb ∷ mbs) up =
    let rest = All-shown_folders listed mbs (λ name h. up name (later mb mbs name h)) in
    elim (Bool-cases (is_hidden_folder mb)) [
      | inl t ↦ rw t rest
      | inr n ↦ rw n (up (folder_info mb).name (rw (name-folder_info mb) (here mb mbs n)), rest)
    ]
  where
    later :
        (mb : ListData) (mbs : List ListData) (name : Text)
        → is_shown mbs name ≡ true
        → is_shown (mb ∷ mbs) name ≡ true
    later mb mbs name h = unfold is_shown any in ground arith

    here :
        (mb : ListData) (mbs : List ListData)
        → is_hidden_folder mb ≡ false
        → is_shown (mb ∷ mbs) mb.mailbox ≡ true
    here mb mbs n = unfold is_shown any in ground (arith, text_eq_refl mb.mailbox)

pub categorize_folders-is_shown :
    (mbs : List ListData) → All (λ f. is_shown mbs f.name ≡ true) (categorize_folders mbs)
unfolding categorize_folders
categorize_folders-is_shown mbs =
    All-sort_folders_by_type (λ f. is_shown mbs f.name ≡ true) (shown_folders mbs)
      (All-shown_folders mbs mbs (λ name h. h))
