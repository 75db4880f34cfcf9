-- ===== src/Connector/Login/Chosen.antt =====
-- What a valid selection of folders selects.
use matrimail.Connector.Login.{
  to_lower, valid_selection, nothing_entered, invalid, FolderSelectionResult, has_index, atoi,
  trim_space, SelectionError, ranged, equal_fold, find_inbox, on_part, is_empty, picked, numbered,
  validate_folder_selection, collect,
}
use matrimail.Connector.Login.{negsuc, pos, ℤ, index_of, names_of, collect, folder_at, parse_parts}
use matrimail.Imap.Folders.{FolderInfo}
use matrimail.Prelude.Strings.Lines.{split_on}
use matrimail.Prelude.{
  All, All-append, Bool, Bool-cases, List, Option, Option-cases, Text, [], ap, arith, codes, false,
  if◌then◌else◌, inl, inr, length, none, refl, some, suc, sym, text_eq, true, zero, ℕ, ◌++◌, ◌<◌,
  ◌||◌, ◌∙◌, ◌∷◌, ◌≡◌, ◌≢◌, ◌≤◌, ◌⊎◌,
}

module _ (P : FolderInfo → Type 0) where
  All-folder_at :
      (i : ℕ) (fs : List FolderInfo) (f : FolderInfo) → All P fs → folder_at i fs ≡ some f → P f
  unfolding folder_at
  All-folder_at i [] f h e = cc
  All-folder_at zero (g ∷ gs) f (p, h) e = let same : g ≡ f = cc in rw (sym same) p
  All-folder_at (suc i) (g ∷ gs) f (p, h) e = All-folder_at i gs f h e

  All-collect : (is : List ℕ) (fs : List FolderInfo) → All P fs → All P (collect is fs)
  unfolding collect
  All-collect [] fs h = tt
  All-collect (i ∷ is) fs h = elim (Option-cases (folder_at i fs)) [
    | inl n ↦ rw (n, collect) (All-collect is fs h)
    | inr (f, e) ↦ rw (e, collect) (All-folder_at i fs f h e, All-collect is fs h)
  ]

folder_at-some : (i : ℕ) (fs : List FolderInfo) → i < length fs → folder_at i fs ≢ none
unfolding folder_at
folder_at-some i [] lt e = ground arith
folder_at-some zero (f ∷ fs) lt e = cc
folder_at-some (suc i) (f ∷ fs) lt e = folder_at-some i fs (omega arith) e

length-collect :
    (is : List ℕ) (fs : List FolderInfo)
    → All (λ i. i < length fs) is
    → length (collect is fs) ≡ length is
unfolding collect
length-collect [] fs h = refl
length-collect (i ∷ is) fs (lt, h) = elim (Option-cases (folder_at i fs)) [
  | inl n ↦ elim (folder_at-some i fs lt n) [ ]
  | inr (f, e) ↦ rw (e, collect) (ap suc (length-collect is fs h))
]

All-names_of :
    (P : Text → Type 0) (fs : List FolderInfo)
    → All (λ (f : FolderInfo). P f.name) fs
    → All P (names_of fs)
All-names_of P [] h = tt
All-names_of P (f ∷ fs) (p, h) = (p, All-names_of P fs h)

index_of-lt : (count : ℕ) (num : ℤ) (i : ℕ) → index_of count num ≡ some i → i < count
unfolding index_of
index_of-lt count (pos zero) i h = cc
index_of-lt count (pos (suc j)) i h = ground arith
index_of-lt count (negsuc n) i h = cc

numbered-lt :
    (count : ℕ) (part : Text) (o : Option ℤ) (i : ℕ) → numbered count part o ≡ inr i → i < count
unfolding numbered
numbered-lt count part none i h = cc
numbered-lt count part (some num) i h = elim (Option-cases (index_of count num)) [
  | inl n ↦ unfold ranged in ground arith
  | inr (j, e) ↦ unfold ranged in ground (arith, index_of-lt count num j e)
]

on_part-lt :
    (count : ℕ) (q : SelectionError ⊎ ℕ) (rest : List ℕ → SelectionError ⊎ List ℕ)
    (chosen is : List ℕ)
    → ((i : ℕ) → q ≡ inr i → i < count)
    → ((js : List ℕ) → All (λ i. i < count) js → rest js ≡ inr is → All (λ i. i < count) is)
    → All (λ i. i < count) chosen
    → on_part q rest chosen ≡ inr is
    → All (λ i. i < count) is
unfolding on_part
on_part-lt count (inl e) rest chosen is lt k h eq = cc
on_part-lt count (inr i) rest chosen is lt k h eq =
    k (if has_index i chosen then chosen else chosen ++ i ∷ []) (grown (has_index i chosen)) eq
  where
    grown : (b : Bool) → All (λ j. j < count) (if b then chosen else chosen ++ i ∷ [])
    grown true = h
    grown false = All-append (λ j. j < count) chosen (i ∷ []) h (lt i refl, tt)

parse_parts-lt :
    (count : ℕ) (parts : List Text) (chosen is : List ℕ)
    → All (λ i. i < count) chosen
    → parse_parts count parts chosen ≡ inr is
    → All (λ i. i < count) is
unfolding parse_parts
parse_parts-lt count [] chosen is h e = let same : chosen ≡ is = cc in rw (sym same) h
parse_parts-lt count (raw ∷ parts) chosen is h e = elim (Bool-cases (is_empty (trim_space raw))) [
  | inl t ↦ parse_parts-lt count parts chosen is h (sym (rw t) ∙ e)
  | inr n ↦
      on_part-lt count (numbered count (trim_space raw) (atoi (trim_space raw)))
        (parse_parts count parts) chosen is
        (numbered-lt count (trim_space raw) (atoi (trim_space raw)))
        (λ js k q. parse_parts-lt count parts js is k q) h (sym (rw n) ∙ e)
]

-- the names of a selection that is not empty, each with `P`
abbrev pub IsChoice : (Text → Type 0) → List Text → Type 0
IsChoice P names = (1 ≤ length names) × All P names

length-names_of : (fs : List FolderInfo) → length (names_of fs) ≡ length fs
length-names_of [] = refl
length-names_of (f ∷ fs) = ap suc (length-names_of fs)

find_inbox-name :
    (P : Text → Type 0) (fs : List FolderInfo)
    → P (codes "INBOX")
    → All (λ (f : FolderInfo). P f.name) fs
    → P (find_inbox fs).name
unfolding find_inbox
find_inbox-name P [] d h = d
find_inbox-name P (f ∷ fs) d (p, h) =
    elim (Bool-cases (equal_fold f.display (codes "INBOX") || equal_fold f.name (codes "INBOX"))) [
      | inl t ↦ rw t p
      | inr n ↦ rw n (find_inbox-name P fs d h)
    ]

module _ (P : Text → Type 0) (fs : List FolderInfo) (inbox : P (codes "INBOX"))
    (offered : All (λ (f : FolderInfo). P f.name) fs) where
  picked-IsChoice :
      (q : SelectionError ⊎ List ℕ)
      → ((is : List ℕ) → q ≡ inr is → All (λ i. i < length fs) is)
      → (picked fs q).valid ≡ true
      → IsChoice P (picked fs q).selected_names
  unfolding picked
  picked-IsChoice (inl e) lt v = cc
  picked-IsChoice (inr []) lt v = cc
  picked-IsChoice (inr (i ∷ is)) lt v = (
    omega (
      arith,
      length-names_of (collect (i ∷ is) fs),
      length-collect (i ∷ is) fs (lt (i ∷ is) refl),
    ),
    All-names_of P (collect (i ∷ is) fs)
        (All-collect (λ (f : FolderInfo). P f.name) (i ∷ is) fs offered),
  )

  -- a valid result selects something
  abbrev IsRight : FolderSelectionResult → Type 0
  IsRight r = r.valid ≡ true → IsChoice P r.selected_names

  if-IsRight :
      (b : Bool) (r s : FolderSelectionResult)
      → IsRight r
      → IsRight s
      → IsRight (if b then r else s)
  if-IsRight true r s h k = h
  if-IsRight false r s h k = k

  pub validate_folder_selection-IsChoice :
      (raw : Text)
      → (validate_folder_selection raw fs).valid ≡ true
      → IsChoice P (validate_folder_selection raw fs).selected_names
  unfolding validate_folder_selection
  validate_folder_selection-IsChoice raw =
      let input = trim_space raw in
      let parsed = parse_parts (length fs) (split_on b',' input) [] in
      let cancel = record (invalid nothing_entered) { error_message = none; is_cancel = true } in
      let inbox_only = valid_selection true (find_inbox fs ∷ []) in
      let by_number =
        picked-IsChoice parsed
          (λ is e. parse_parts-lt (length fs) (split_on b',' input) [] is tt e) in
      if-IsRight (is_empty input) (invalid nothing_entered) _ (λ v. cc)
        (if-IsRight (text_eq (to_lower input) (codes "cancel")) cancel _ (λ v. cc)
          (if-IsRight (text_eq (to_lower input) (codes "default")) inbox_only (picked fs parsed)
            (λ v. (omega arith, (find_inbox-name P fs inbox offered, tt))) by_number))
