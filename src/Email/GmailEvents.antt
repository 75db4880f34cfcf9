-- ===== src/Email/GmailEvents.antt =====
-- The new messages of a Gmail history: the loop over its events in pollOnce of
-- pkg/email/inbound_gmail_api.go, with hasLabel, anyLabelMatches and primaryLabel. The map of the new
-- messages is a list, and labels are compared by the case of ASCII letters.
pub mod Queue
use matrimail.Email.Threading.{is_empty}
use matrimail.Prelude.TextMap.{put, lookup, TextMap}
use matrimail.Prelude.Strings.{equal_fold}
use matrimail.Prelude.{
  Bool, List, Option, Text, [], any, codes, false, if◌then◌else◌, none, not, some, true, ℕ, ◌||◌,
  ◌∷◌,
}

pub record MessageRef : Type 0 where
  pub id : Text
  pub label_ids : List Text

-- `none` is a nil event, or one whose Message is nil
pub record History : Type 0 where
  pub messages_added : List (Option MessageRef)
  pub labels_added : List (Option (MessageRef × List Text))

pub record Page : Type 0 where
  pub history : List History
  pub history_id : ℕ

unfoldable pub has_label : List Text → Text → Bool
unfolding equal_fold any
has_label labels target = any (λ l. equal_fold l target) labels

unfoldable pub any_label_matches : List Text → List Text → Bool
unfolding has_label
any_label_matches a b = any (λ x. any (equal_fold x) b) a

-- SENT or INBOX, whichever comes first
system_label : List Text → Option Text
unfolding equal_fold
system_label [] = none
system_label (lbl ∷ labels) =
    if equal_fold lbl (codes "SENT")
    then some (codes "SENT")
    else if equal_fold lbl (codes "INBOX")
    then some (codes "INBOX")
    else system_label labels

monitored_label : List Text → List Text → Option Text
unfolding equal_fold any
monitored_label [] monitored = none
monitored_label (lbl ∷ labels) monitored =
    if any (equal_fold lbl) monitored then some lbl else monitored_label labels monitored

first_label : List Text → Text
first_label [] = []
first_label (lbl ∷ labels) = lbl

unfoldable pub primary_label : List Text → List Text → Text
unfolding system_label monitored_label first_label
primary_label labels monitored = elim (system_label labels) [
  | some lbl ↦ lbl
  | none ↦ elim (monitored_label labels monitored) [ some lbl ↦ lbl | none ↦ first_label monitored ]
]

unfoldable pub is_draft : MessageRef → Bool
unfolding has_label
is_draft m = has_label m.label_ids (codes "DRAFT")

-- the events of one record
unfoldable pub take_added : List Text → Option MessageRef → TextMap Text → TextMap Text
unfolding is_draft primary_label
take_added monitored none queue = queue
take_added monitored (some m) queue =
    if is_empty m.id || is_draft m
    then queue
    else put m.id (primary_label m.label_ids monitored) queue

unfoldable pub is_queued : Text → TextMap Text → Bool
is_queued id queue = elim (lookup id queue) [ none ↦ false | some lbl ↦ true ]

unfoldable pub take_labelled :
    List Text → Option (MessageRef × List Text) → TextMap Text → TextMap Text
unfolding is_draft any_label_matches is_queued primary_label
take_labelled monitored none queue = queue
take_labelled monitored (some (m, added)) queue =
    if is_empty m.id || is_draft m
    then queue
    else if not (any_label_matches added monitored)
    then queue
    else if is_queued m.id queue
    then queue
    else put m.id (primary_label m.label_ids monitored) queue

take_all_added : List Text → List (Option MessageRef) → TextMap Text → TextMap Text
unfolding take_added
take_all_added monitored [] queue = queue
take_all_added monitored (e ∷ es) queue = take_all_added monitored es (take_added monitored e queue)

take_all_labelled : List Text → List (Option (MessageRef × List Text)) → TextMap Text → TextMap Text
unfolding take_labelled
take_all_labelled monitored [] queue = queue
take_all_labelled monitored (e ∷ es) queue =
    take_all_labelled monitored es (take_labelled monitored e queue)

take_history : List Text → List History → TextMap Text → TextMap Text
unfolding take_all_added take_all_labelled
take_history monitored [] queue = queue
take_history monitored (h ∷ hs) queue =
    take_history monitored hs
      (take_all_labelled monitored h.labels_added (take_all_added monitored h.messages_added queue))

unfoldable pub take_pages : List Text → List Page → TextMap Text → TextMap Text
unfolding take_history
take_pages monitored [] queue = queue
take_pages monitored (p ∷ ps) queue =
    take_pages monitored ps (take_history monitored p.history queue)
