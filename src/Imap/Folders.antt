-- ===== src/Imap/Folders.antt =====
-- The folders that a login offers: pkg/imap/folders.go, without the icons and the text for the chat.
-- sort.Slice leaves the order of equal folders open; here it is an insertion sort.
pub mod Shown
use matrimail.Prelude.{
  Bool, List, Text, [], any, codes, false, if◌then◌else◌, ltb, not, true, ℕ, ◌/◌, ◌==◌, ◌||◌, ◌∷◌,
}
use matrimail.Prelude.Strings.{equal_fold, to_lower, trim_prefix, contains}

pub data FolderType : Type 0 where
  standard : FolderType
  label : FolderType
  system : FolderType

-- the attributes that are looked at, and any other
pub data MailboxAttr : Type 0 where
  no_select : MailboxAttr
  junk : MailboxAttr
  trash : MailboxAttr
  archive : MailboxAttr
  sent : MailboxAttr
  drafts : MailboxAttr
  all_mail : MailboxAttr
  flagged : MailboxAttr
  important : MailboxAttr
  other : Text → MailboxAttr

-- a mailbox as LIST gives it
pub record ListData : Type 0 where
  pub mailbox : Text
  pub attrs : List MailboxAttr

pub record FolderInfo : Type 0 where
  pub name : Text
  pub display : Text
  pub folder_type : FolderType
  pub attributes : List MailboxAttr
  pub is_selectable : Bool

attr_rank : MailboxAttr → ℕ
attr_rank no_select = 0
attr_rank junk = 1
attr_rank trash = 2
attr_rank archive = 3
attr_rank sent = 4
attr_rank drafts = 5
attr_rank all_mail = 6
attr_rank flagged = 7
attr_rank important = 8
attr_rank (other s) = 9

-- equality with an attribute that is looked at
unfoldable pub has_attribute : List MailboxAttr → MailboxAttr → Bool
unfolding attr_rank any
has_attribute attrs target = any (λ a. attr_rank a == attr_rank target) attrs

unfoldable pub clean_gmail_prefix : Text → Text
clean_gmail_prefix name =
    let name = trim_prefix name (codes "[Gmail]/") in
    let name = trim_prefix name (codes "[GoogleMail]/") in
    let name = trim_prefix name (codes "INBOX.") in trim_prefix name (codes "INBOX/")

abbrev hidden_patterns : List Text
hidden_patterns =
    codes "[gmail]/spam"
    ∷ codes "[gmail]/trash"
    ∷ codes "[gmail]/bin"
    ∷ codes "[googlemail]/spam"
    ∷ codes "[googlemail]/trash"
    ∷ codes "junk"
    ∷ codes "deleted"
    ∷ codes "trash"
    ∷ []

unfoldable pub is_hidden_folder : ListData → Bool
unfolding has_attribute any
is_hidden_folder mb =
    has_attribute mb.attrs no_select
    || has_attribute mb.attrs junk
    || has_attribute mb.attrs trash
    || has_attribute mb.attrs archive
    || any (contains (to_lower mb.mailbox)) hidden_patterns

info : ListData → FolderType → Text → FolderInfo
unfolding has_attribute
info mb folder_type display = record {
  name = mb.mailbox;
  display = display;
  folder_type = folder_type;
  attributes = mb.attrs;
  is_selectable = not (has_attribute mb.attrs no_select);
}

unfoldable pub folder_info : ListData → FolderInfo
unfolding info has_attribute equal_fold clean_gmail_prefix
folder_info mb =
    if equal_fold mb.mailbox (codes "INBOX")
    then info mb standard (codes "INBOX")
    else if has_attribute mb.attrs sent
    then info mb standard (codes "Sent")
    else if has_attribute mb.attrs drafts
    then info mb standard (codes "Drafts")
    else if has_attribute mb.attrs all_mail
        || has_attribute mb.attrs flagged
        || has_attribute mb.attrs important
    then info mb system (clean_gmail_prefix mb.mailbox)
    else info mb label (clean_gmail_prefix mb.mailbox)

unfoldable pub shown_folders : List ListData → List FolderInfo
unfolding is_hidden_folder folder_info
shown_folders [] = []
shown_folders (mb ∷ mbs) =
    let rest = shown_folders mbs in if is_hidden_folder mb then rest else folder_info mb ∷ rest

type_rank : FolderType → ℕ
type_rank standard = 0
type_rank label = 1
type_rank system = 2

-- `<` of Go's strings
text_less : Text → Text → Bool
text_less s [] = false
text_less [] (d ∷ t) = true
text_less (c ∷ s) (d ∷ t) = if c == d then text_less s t else ltb c d

unfoldable pub folder_less : FolderInfo → FolderInfo → Bool
unfolding type_rank text_less
folder_less f g =
    if type_rank f.folder_type == type_rank g.folder_type
    then text_less (to_lower f.display) (to_lower g.display)
    else ltb (type_rank f.folder_type) (type_rank g.folder_type)

unfoldable pub insert_folder : FolderInfo → List FolderInfo → List FolderInfo
unfolding folder_less
insert_folder f [] = f ∷ []
insert_folder f (g ∷ gs) = if folder_less g f then g ∷ insert_folder f gs else f ∷ g ∷ gs

unfoldable pub sort_folders_by_type : List FolderInfo → List FolderInfo
unfolding insert_folder
sort_folders_by_type [] = []
sort_folders_by_type (f ∷ fs) = insert_folder f (sort_folders_by_type fs)

unfoldable pub categorize_folders : List ListData → List FolderInfo
unfolding shown_folders sort_folders_by_type
categorize_folders mbs = sort_folders_by_type (shown_folders mbs)
