-- ===== src/Email/GmailPoller/Examples.antt =====
-- A run of the poller of pkg/email/inbound_gmail_api.go on a short history.
use matrimail.Email.GmailPoller.{last_page, more_pages, tick, Answers}
use matrimail.Email.GmailEvents.{Page, MessageRef}
use matrimail.Prelude.{
  text_eq, ◌-◌, Bool, List, Option, String, Text, [], codes, none, refl, some, true, ◌∷◌, ◌≡◌,
}

abbrev inbox : List Text
inbox = codes "INBOX" ∷ []

abbrev mail : String → List Text → Option MessageRef
mail id label_ids = some (record { id = codes id; label_ids = label_ids })

-- "a" arrives, a draft "b" too, and "a" and "c" are given labels
abbrev page : Page
page = record {
  history =
      record {
        messages_added = mail "a" inbox ∷ none ∷ mail "b" (codes "Draft" ∷ []) ∷ [];
        labels_added = [];
      }
      ∷ record {
        messages_added = [];
        labels_added =
            some (record { id = codes "a"; label_ids = inbox }, codes "Starred" ∷ [])
            ∷ some (record { id = codes "c"; label_ids = codes "Inbox" ∷ [] }, codes "Inbox" ∷ [])
            ∷ [];
      }
      ∷ [];
  history_id = 12;
}

abbrev answers : Answers
answers = record {
  service = true;
  listing = more_pages (record { history = []; history_id = 11 }) (last_page page);
  profile = none;
}

-- the fetch of a message gives its id; the callback notes it with its mailbox
abbrev note : Text → Text → List (Text × Text) → List (Text × Text) × Bool
note id mailbox log = ((id, mailbox) ∷ log, true)

tick_run :
    tick (λ id. some id) note inbox true answers (7, [])
    ≡ (12, (codes "c", codes "INBOX") ∷ (codes "a", codes "INBOX") ∷ [])
unfolding tick text_eq matrimail.Prelude.Strings.to_lower matrimail.Prelude.TextMap.lookup
    matrimail.Prelude.TextMap.put
tick_run = refl
