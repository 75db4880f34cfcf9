-- ===== src/Connector/Login.antt =====
-- The login with a password: the steps of pkg/connector/login.go, from SubmitUserInput to
-- completeLogin, with pkg/connector/login_validation.go. The prompts are their step. What the IMAP
-- server, the database and the bridge answer are arguments. The steps of OAuth are left out.
pub mod Chosen
pub mod Examples
pub mod Steps
use matrimail.Prelude.{
  Bool, List, Option, Text, [], codes, false, if◌then◌else◌, inl, inr, leb, length, ltb, map, none,
  some, suc, text_eq, true, zero, ℕ, ◌&&◌, ◌*◌, ◌++◌, ◌+◌, ◌-◌, ◌==◌, ◌^◌, ◌||◌, ◌∷◌, ◌⊎◌,
}
use matrimail.Prelude.Int.{ℤ, pos, negsuc}
use matrimail.Prelude.Strings.Lines.{split_on}
use matrimail.Prelude.Strings.{equal_fold, to_lower, trim_space}
use matrimail.Email.Threading.{is_empty}
use matrimail.Imap.Folders.{FolderInfo, standard}

-- the digits, in front of which stands `n`
unfoldable pub parse_digits : ℕ → Text → Option ℕ
parse_digits n [] = some n
parse_digits n (c ∷ s) =
    let rest = parse_digits (10 * n + (c - b'0')) s in
    if leb b'0' c && leb c b'9' then rest else none

digits : Text → Option ℕ
unfolding parse_digits
digits [] = none
digits (c ∷ s) = parse_digits 0 (c ∷ s)

-- within 64 bits
positive_int : Option ℕ → Option ℤ
positive_int none = none
positive_int (some n) = if ltb n (2 ^ 63) then some (pos n) else none

negative_int : Option ℕ → Option ℤ
negative_int none = none
negative_int (some zero) = some (pos 0)
negative_int (some (suc n)) = if ltb n (2 ^ 63) then some (negsuc n) else none

-- strconv.Atoi
unfoldable pub atoi : Text → Option ℤ
unfolding digits positive_int negative_int
atoi [] = none
atoi (c ∷ s) =
    if c == b'+'
    then positive_int (digits s)
    else if c == b'-'
    then negative_int (digits s)
    else positive_int (digits (c ∷ s))

pub data SelectionError : Type 0 where
  nothing_entered : SelectionError
  not_a_number : Text → SelectionError
  out_of_range : ℤ → SelectionError
  nothing_selected : SelectionError

pub record FolderSelectionResult : Type 0 where
  pub valid : Bool
  pub selected_names : List Text
  pub selected_infos : List FolderInfo
  pub error_message : Option SelectionError
  pub is_cancel : Bool
  pub is_default : Bool

abbrev pub invalid : SelectionError → FolderSelectionResult
invalid e = record {
  valid = false;
  selected_names = [];
  selected_infos = [];
  error_message = some e;
  is_cancel = false;
  is_default = false;
}

abbrev pub names_of : List FolderInfo → List Text
names_of folders = map (λ (f : FolderInfo). f.name) folders

abbrev pub valid_selection : Bool → List FolderInfo → FolderSelectionResult
valid_selection is_default folders = record {
  valid = true;
  selected_names = names_of folders;
  selected_infos = folders;
  error_message = none;
  is_cancel = false;
  is_default = is_default;
}

abbrev pub literal_inbox : FolderInfo
literal_inbox = record {
  name = codes "INBOX";
  display = codes "INBOX";
  folder_type = standard;
  attributes = [];
  is_selectable = false;
}

unfoldable pub find_inbox : List FolderInfo → FolderInfo
unfolding equal_fold
find_inbox [] = literal_inbox
find_inbox (f ∷ fs) =
    if equal_fold f.display (codes "INBOX") || equal_fold f.name (codes "INBOX")
    then f
    else find_inbox fs

-- availableFolders[i]
unfoldable pub folder_at : ℕ → List FolderInfo → Option FolderInfo
folder_at i [] = none
folder_at zero (f ∷ fs) = some f
folder_at (suc i) (f ∷ fs) = folder_at i fs

unfoldable pub has_index : ℕ → List ℕ → Bool
has_index i [] = false
has_index i (j ∷ js) = (j == i) || has_index i js

-- the index of a number from 1 to the number of folders
index_of : ℕ → ℤ → Option ℕ
index_of count (pos zero) = none
index_of count (pos (suc i)) = if ltb i count then some i else none
index_of count (negsuc n) = none

ranged : ℤ → Option ℕ → SelectionError ⊎ ℕ
ranged num none = inl (out_of_range num)
ranged num (some i) = inr i

numbered : ℕ → Text → Option ℤ → SelectionError ⊎ ℕ
unfolding ranged index_of
numbered count part none = inl (not_a_number part)
numbered count part (some num) = ranged num (index_of count num)

-- one part, before those that `rest` parses
on_part : SelectionError ⊎ ℕ → (List ℕ → SelectionError ⊎ List ℕ) → List ℕ → SelectionError ⊎ List ℕ
unfolding has_index
on_part (inl e) rest chosen = inl e
on_part (inr i) rest chosen = rest (if has_index i chosen then chosen else chosen ++ i ∷ [])

-- the indices that the parts select, in order, or the error of the first bad part
unfoldable pub parse_parts : ℕ → List Text → List ℕ → SelectionError ⊎ List ℕ
unfolding on_part numbered atoi
parse_parts count [] chosen = inr chosen
parse_parts count (raw ∷ parts) chosen =
    let part = trim_space raw in
    if is_empty part
    then parse_parts count parts chosen
    else on_part (numbered count part (atoi part)) (parse_parts count parts) chosen

unfoldable pub collect : List ℕ → List FolderInfo → List FolderInfo
unfolding folder_at
collect [] available = []
collect (i ∷ is) available = elim (folder_at i available) [
  | none ↦ collect is available
  | some f ↦ f ∷ collect is available
]

picked : List FolderInfo → SelectionError ⊎ List ℕ → FolderSelectionResult
unfolding collect
picked available (inl e) = invalid e
picked available (inr []) = invalid nothing_selected
picked available (inr (i ∷ is)) = valid_selection false (collect (i ∷ is) available)

unfoldable pub validate_folder_selection : Text → List FolderInfo → FolderSelectionResult
unfolding picked parse_parts split_on find_inbox
validate_folder_selection raw available =
    let input = trim_space raw in
    if is_empty input
    then invalid nothing_entered
    else if text_eq (to_lower input) (codes "cancel")
    then record (invalid nothing_entered) { error_message = none; is_cancel = true }
    else if text_eq (to_lower input) (codes "default")
    then valid_selection true (find_inbox available ∷ [])
    else picked available (parse_parts (length available) (split_on b',' input) [])
