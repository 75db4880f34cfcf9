-- ===== src/Email/GmailPoller.antt =====
-- GmailHistoryPoller of pkg/email/inbound_gmail_api.go: the ticks of Run, pollOnce and
-- bootstrapCursor. The answers of the Gmail API and the callbacks are arguments. A history ends, so
-- the answers to the calls for its pages are a finite chain. New messages are fetched in the order of
-- their list, where Go leaves the order open.
pub mod Ticks
pub mod Examples
use matrimail.Prelude.TextMap.{TextMap}
use matrimail.Prelude.Strings.{to_lower, contains}
use matrimail.Email.GmailEvents.{take_pages, Page}
use matrimail.Prelude.{
  Bool, List, Option, Text, [], codes, false, if◌then◌else◌, ltb, none, not, some, true, ℕ, ◌&&◌,
  ◌++◌, ◌+◌, ◌==◌, ◌||◌, ◌∷◌,
}

-- `code` is that of a googleapi.Error
pub record ApiError : Type 0 where
  pub code : Option ℕ
  pub text : Text

-- the answer to history.list and, while it has a NextPageToken, those to the calls that follow
pub data Listing : Type 0 where
  list_refused : ApiError → Listing
  last_page : Page → Listing
  more_pages : Page → Listing → Listing

-- The answers of one tick: whether the service is made, the pages, and getProfile's history id,
-- `none` if it fails.
pub record Answers : Type 0 where
  pub service : Bool
  pub listing : Listing
  pub profile : Option ℕ

pub data PollError : Type 0 where
  no_service : PollError
  profile_failed : PollError
  list_failed : PollError
  pagination_failed : PollError

unfoldable pub is_history_expired_error : Option ApiError → Bool
is_history_expired_error none = false
is_history_expired_error (some e) =
    elim e.code [ none ↦ false | some code ↦ code == 404 ]
    || (contains e.text (codes "historyId") && contains (to_lower e.text) (codes "not found"))

abbrev later : ℕ → ℕ → ℕ
later h cursor = if ltb cursor h then h else cursor

-- the pages that follow and the highest history id, and whether no call fails
unfoldable pub drain : Listing → ℕ → List Page → (List Page × ℕ) × Bool
drain (list_refused e) cursor pages = ((pages, cursor), false)
drain (last_page p) cursor pages = ((pages ++ p ∷ [], later p.history_id cursor), true)
drain (more_pages p rest) cursor pages = drain rest (later p.history_id cursor) (pages ++ p ∷ [])

module _ {ℓ κ} {S : Type ℓ} {G : Type κ} (get : Text → Option G)
    (on_message : G → Text → S → S × Bool) (monitored : List Text) where
  -- a message that cannot be fetched is skipped, and what the callback returns is only logged
  unfoldable pub feed : TextMap Text → S → S
  feed [] s = s
  feed ((id, mailbox) ∷ queue) s = elim (get id) [
    | none ↦ feed queue s
    | some full ↦ feed queue (on_message full mailbox s).0
  ]

  hand_out : (List Page × ℕ) × Bool → S → (ℕ × S) × Option PollError
  unfolding feed take_pages
  hand_out ((pages, next), false) s = ((next, s), some pagination_failed)
  hand_out ((pages, next), true) s = ((next, feed (take_pages monitored pages []) s), none)

  refused_poll : ℕ → ApiError → Option ℕ → S → (ℕ × S) × Option PollError
  unfolding is_history_expired_error
  refused_poll cursor e profile s =
      if is_history_expired_error (some e)
      then elim profile [ none ↦ ((cursor, s), some profile_failed) | some h ↦ ((h, s), none) ]
      else ((cursor, s), some list_failed)

  or_same : ℕ → ℕ → ℕ
  or_same cursor h = if h == 0 then cursor else h

  listed : ℕ → Listing → Option ℕ → S → (ℕ × S) × Option PollError
  unfolding refused_poll hand_out drain or_same
  listed cursor (list_refused e) profile s = refused_poll cursor e profile s
  listed cursor (last_page p) profile s = hand_out ((p ∷ [], or_same cursor p.history_id), true) s
  listed cursor (more_pages p rest) profile s =
      hand_out (drain rest (or_same cursor p.history_id) (p ∷ [])) s

  unfoldable pub poll_once : ℕ → Answers → S → (ℕ × S) × Option PollError
  unfolding listed
  poll_once cursor a s =
      if a.service then listed cursor a.listing a.profile s else ((cursor, s), some no_service)

  -- one tick of Run; `saves` says whether CursorSave succeeds
  polled : ℕ → Bool → (ℕ × S) × Option PollError → ℕ × S
  polled cursor saves ((next, s), some e) = (cursor, s)
  polled cursor saves ((next, s), none) =
      if next == cursor then (cursor, s) else if saves then (next, s) else (cursor, s)

  unfoldable pub tick : Bool → Answers → ℕ × S → ℕ × S
  unfolding polled poll_once
  tick saves a (cursor, s) = polled cursor saves (poll_once cursor a s)

-- CursorLoad's answer, `none` for an error; the cursor, and what is saved, if anything is
unfoldable pub bootstrap_cursor : Option ℕ → Bool → Option ℕ → Bool → Option ℕ × Option ℕ
bootstrap_cursor none service profile saves = (none, none)
bootstrap_cursor (some cursor) service profile saves =
    if cursor == 0
    then if service
      then elim profile [
        | none ↦ (none, none)
        | some h ↦ if saves then (some h, some h) else (none, none)
      ]
      else (none, none)
    else (some cursor, none)
