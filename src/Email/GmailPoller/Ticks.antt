-- ===== src/Email/GmailPoller/Ticks.antt =====
-- What a tick hands on.
use matrimail.Email.Threading.{member}
use matrimail.Email.Threading.Determine.Participants.{Distinct}
use matrimail.Email.GmailEvents.Queue.{wanted, ids}
use matrimail.Prelude.{
  ◌+◌, ◌-◌, Bool-cases, sym, Bool, List, Option, Option-cases, Text, [], arith, false,
  if◌then◌else◌, inl, inr, none, refl, some, true, ℕ, ◌++◌, ◌∙◌, ◌∷◌, ◌≡◌,
}
use matrimail.Email.GmailEvents.{Page}
use matrimail.Email.GmailPoller.{
  no_service, PollError, poll_once, polled, tick, TextMap, refused_poll, later, Listing,
  list_refused, last_page, more_pages, Answers, drain, feed, hand_out, listed, or_same,
}

-- all the pages of a history, if no call for one fails
unfoldable pub pages_of : Listing → Option (List Page)
pages_of (list_refused e) = none
pages_of (last_page p) = some (p ∷ [])
pages_of (more_pages p rest) = elim (pages_of rest) [ none ↦ none | some ps ↦ some (p ∷ ps) ]

unfoldable pub read_pages : Answers → Option (List Page)
unfolding pages_of
read_pages a = if a.service then pages_of a.listing else none

drain-none :
    (l : Listing) (cursor : ℕ) (done : List Page)
    → pages_of l ≡ none
    → (drain l cursor done).1 ≡ false
unfolding drain pages_of
drain-none (list_refused e) cursor done h = refl
drain-none (last_page p) cursor done h = cc
drain-none (more_pages p l) cursor done h = elim (Option-cases (pages_of l)) [
  | inl n ↦ drain-none l (later p.history_id cursor) (done ++ p ∷ []) n
  | inr (ps, e) ↦ ground arith
]

module _ {ℓ κ} {S : Type ℓ} {G : Type κ} (get : Text → Option G)
    (on_message : G → Text → S → S × Bool) (monitored : List Text) where
  hand_out-none :
      (q : (List Page × ℕ) × Bool) (s : S)
      → q.1 ≡ false
      → (hand_out get on_message monitored q s).0.1 ≡ s
  unfolding hand_out
  hand_out-none ((ps, next), true) s e = cc
  hand_out-none ((ps, next), false) s e = refl

  listed-none :
      (l : Listing) (cursor : ℕ) (profile : Option ℕ) (s : S)
      → pages_of l ≡ none
      → (listed get on_message monitored cursor l profile s).0.1 ≡ s
  unfolding listed pages_of refused_poll
  listed-none (list_refused e) cursor profile s h = ground arith
  listed-none (last_page p) cursor profile s h = cc
  listed-none (more_pages p rest) cursor profile s h = elim (Option-cases (pages_of rest)) [
    | inl n ↦
        hand_out-none (drain rest (or_same get on_message monitored cursor p.history_id) (p ∷ [])) s
          (drain-none rest (or_same get on_message monitored cursor p.history_id) (p ∷ []) n)
    | inr (ps, e) ↦ ground arith
  ]

  -- `s'` is `s` after the fetch, one after the other, of exactly the messages that some event of the
  -- pages wants, each once
  abbrev pub IsFed : List Page → S → S → Type ℓ
  IsFed pages s s' =
      (queue : TextMap Text) × Distinct (ids queue)
      × ((id : Text) → member id (ids queue) ≡ wanted monitored id pages)
      × (s' ≡ feed get on_message monitored queue s)

  polled-same :
      (cursor : ℕ) (saves : Bool) (q : (ℕ × S) × Option PollError)
      → (polled get on_message monitored cursor saves q).1 ≡ q.0.1
  unfolding polled
  polled-same cursor saves ((next, s), some e) = refl
  polled-same cursor saves ((next, s), none) = ground arith

  -- A tick for which some page is not read hands on nothing.
  tick-none :
      (saves : Bool) (a : Answers) (cursor : ℕ) (s : S)
      → read_pages a ≡ none
      → (tick get on_message monitored saves a (cursor, s)).1 ≡ s
  unfolding tick poll_once read_pages
  tick-none saves a cursor s h = elim (Bool-cases a.service) [
    | inr f ↦ rw f (polled-same cursor saves ((cursor, s), some no_service))
    | inl t ↦ rw t (
        polled-same cursor saves (listed get on_message monitored cursor a.listing a.profile s)
        ∙ listed-none a.listing cursor a.profile s (sym (rw t) ∙ h))
  ]
