-- ===== src/Email/GmailEvents/Queue.antt =====
-- Which messages the events of a history queue.
use matrimail.Email.Threading.Determine.Participants.{Distinct}
use matrimail.Email.Threading.{member, is_empty}
use matrimail.Prelude.TextMap.{lookup-put, lookup, put, TextMap}
use matrimail.Email.GmailEvents.{
  take_pages, take_history, take_all_labelled, take_all_added, any_label_matches, is_draft,
  primary_label, take_labelled, MessageRef, take_added, is_queued, Page, History,
}
use matrimail.Prelude.{
  Bool, Bool-cases, List, Option, Text, [], any, ap, arith, false, inl, inr, none, not, refl, some,
  sym, text_eq, text_eq_iff, true, ◌&&◌, ◌||◌, ◌∙◌, ◌∷◌, ◌≡◌,
}

-- whether an event queues the message `id`
unfoldable pub adds : Text → Option MessageRef → Bool
adds id none = false
adds id (some m) = not (is_empty m.id || is_draft m) && text_eq m.id id

unfoldable pub labels : List Text → Text → Option (MessageRef × List Text) → Bool
labels monitored id none = false
labels monitored id (some (m, added)) =
    not (is_empty m.id || is_draft m) && (any_label_matches added monitored && text_eq m.id id)

unfoldable pub wanted_by : List Text → Text → History → Bool
unfolding adds labels any
wanted_by monitored id h =
    any (adds id) h.messages_added || any (labels monitored id) h.labels_added

-- whether some event of the pages adds the message, which is no draft, or gives it a monitored label
unfoldable pub wanted : List Text → Text → List Page → Bool
unfolding wanted_by any
wanted monitored id pages = any (λ p. any (wanted_by monitored id) p.history) pages

or_false : (b : Bool) → (b || false) ≡ b
or_false true = refl
or_false false = refl

or_or : (a b c : Bool) → ((a || b) || c) ≡ (a || (b || c))
or_or true b c = refl
or_or false b c = refl

is_queued-put :
    (j k : Text) (v : Text) (m : TextMap Text)
    → is_queued j (put k v m) ≡ (is_queued j m || text_eq k j)
unfolding is_queued
is_queued-put j k v m = ground (arith, lookup-put k j v m)

is_queued-take_added :
    (monitored : List Text) (id : Text) (e : Option MessageRef) (queue : TextMap Text)
    → is_queued id (take_added monitored e queue) ≡ (is_queued id queue || adds id e)
unfolding take_added adds
is_queued-take_added monitored id none queue = sym (or_false (is_queued id queue))
is_queued-take_added monitored id (some m) queue =
    ground (arith, is_queued-put id m.id (primary_label m.label_ids monitored) queue)

is_queued-take_labelled :
    (monitored : List Text) (id : Text) (e : Option (MessageRef × List Text)) (queue : TextMap Text)
    → is_queued id (take_labelled monitored e queue) ≡ (is_queued id queue || labels monitored id e)
unfolding take_labelled labels
is_queued-take_labelled monitored id none queue = sym (or_false (is_queued id queue))
is_queued-take_labelled monitored id (some (m, added)) queue =
    ground (
      arith,
      is_queued-put id m.id (primary_label m.label_ids monitored) queue,
      text_eq_iff m.id id,
    )

is_queued-take_all_added :
    (monitored : List Text) (id : Text) (es : List (Option MessageRef)) (queue : TextMap Text)
    → is_queued id (take_all_added monitored es queue) ≡ (is_queued id queue || any (adds id) es)
unfolding take_all_added any
is_queued-take_all_added monitored id [] queue = sym (or_false (is_queued id queue))
is_queued-take_all_added monitored id (e ∷ es) queue =
    is_queued-take_all_added monitored id es (take_added monitored e queue)
    ∙ ap (λ b. b || any (adds id) es) (is_queued-take_added monitored id e queue)
    ∙ or_or (is_queued id queue) (adds id e) (any (adds id) es)

is_queued-take_all_labelled :
    (monitored : List Text) (id : Text) (es : List (Option (MessageRef × List Text)))
    (queue : TextMap Text)
    → is_queued id (take_all_labelled monitored es queue)
      ≡ (is_queued id queue || any (labels monitored id) es)
unfolding take_all_labelled any
is_queued-take_all_labelled monitored id [] queue = sym (or_false (is_queued id queue))
is_queued-take_all_labelled monitored id (e ∷ es) queue =
    is_queued-take_all_labelled monitored id es (take_labelled monitored e queue)
    ∙ ap (λ b. b || any (labels monitored id) es) (is_queued-take_labelled monitored id e queue)
    ∙ or_or (is_queued id queue) (labels monitored id e) (any (labels monitored id) es)

is_queued-take_history :
    (monitored : List Text) (id : Text) (hs : List History) (queue : TextMap Text)
    → is_queued id (take_history monitored hs queue)
      ≡ (is_queued id queue || any (wanted_by monitored id) hs)
unfolding take_history any wanted_by
is_queued-take_history monitored id [] queue = sym (or_false (is_queued id queue))
is_queued-take_history monitored id (h ∷ hs) queue =
    let added = take_all_added monitored h.messages_added queue in
    let one : is_queued id (take_all_labelled monitored h.labels_added added)
        ≡ (is_queued id queue || wanted_by monitored id h) =
      is_queued-take_all_labelled monitored id h.labels_added added
      ∙ ap (λ b. b || any (labels monitored id) h.labels_added)
          (is_queued-take_all_added monitored id h.messages_added queue)
      ∙ or_or (is_queued id queue) (any (adds id) h.messages_added)
          (any (labels monitored id) h.labels_added) in
    is_queued-take_history monitored id hs (take_all_labelled monitored h.labels_added added)
    ∙ ap (λ b. b || any (wanted_by monitored id) hs) one
    ∙ or_or (is_queued id queue) (wanted_by monitored id h) (any (wanted_by monitored id) hs)

pub is_queued-take_pages :
    (monitored : List Text) (id : Text) (pages : List Page) (queue : TextMap Text)
    → is_queued id (take_pages monitored pages queue)
      ≡ (is_queued id queue || wanted monitored id pages)
unfolding take_pages any wanted
is_queued-take_pages monitored id [] queue = sym (or_false (is_queued id queue))
is_queued-take_pages monitored id (p ∷ ps) queue =
    is_queued-take_pages monitored id ps (take_history monitored p.history queue)
    ∙ ap (λ b. b || wanted monitored id ps) (is_queued-take_history monitored id p.history queue)
    ∙ or_or (is_queued id queue) (any (wanted_by monitored id) p.history) (wanted monitored id ps)

-- the ids of the queue
unfoldable pub ids : TextMap Text → List Text
ids [] = []
ids ((id, mailbox) ∷ queue) = id ∷ ids queue

pub member-ids : (id : Text) (queue : TextMap Text) → member id (ids queue) ≡ is_queued id queue
unfolding ids member is_queued lookup
member-ids id [] = refl
member-ids id ((j, v) ∷ queue) = ground (arith, member-ids id queue)

Distinct-put : (k v : Text) (m : TextMap Text) → Distinct (ids m) → Distinct (ids (put k v m))
unfolding put ids member
Distinct-put k v [] d = (refl, tt)
Distinct-put k v ((j, w) ∷ m) (new, d) = elim (Bool-cases (text_eq j k)) [
  | inl t ↦ rw t (ground (arith, text_eq_iff j k), d)
  | inr f ↦ rw f (
    ground (
      arith,
      member-ids j (put k v m),
      member-ids j m,
      is_queued-put j k v m,
      text_eq_iff k j,
      text_eq_iff j k,
    ),
    Distinct-put k v m d,
  )
]

Distinct-take_added :
    (monitored : List Text) (e : Option MessageRef) (queue : TextMap Text)
    → Distinct (ids queue)
    → Distinct (ids (take_added monitored e queue))
unfolding take_added
Distinct-take_added monitored none queue d = d
Distinct-take_added monitored (some m) queue d =
    ground (arith, Distinct-put m.id (primary_label m.label_ids monitored) queue d)

Distinct-take_labelled :
    (monitored : List Text) (e : Option (MessageRef × List Text)) (queue : TextMap Text)
    → Distinct (ids queue)
    → Distinct (ids (take_labelled monitored e queue))
unfolding take_labelled
Distinct-take_labelled monitored none queue d = d
Distinct-take_labelled monitored (some (m, added)) queue d =
    ground (arith, Distinct-put m.id (primary_label m.label_ids monitored) queue d)

Distinct-take_all_added :
    (monitored : List Text) (es : List (Option MessageRef)) (queue : TextMap Text)
    → Distinct (ids queue)
    → Distinct (ids (take_all_added monitored es queue))
unfolding take_all_added
Distinct-take_all_added monitored [] queue d = d
Distinct-take_all_added monitored (e ∷ es) queue d =
    Distinct-take_all_added monitored es (take_added monitored e queue)
      (Distinct-take_added monitored e queue d)

Distinct-take_all_labelled :
    (monitored : List Text) (es : List (Option (MessageRef × List Text))) (queue : TextMap Text)
    → Distinct (ids queue)
    → Distinct (ids (take_all_labelled monitored es queue))
unfolding take_all_labelled
Distinct-take_all_labelled monitored [] queue d = d
Distinct-take_all_labelled monitored (e ∷ es) queue d =
    Distinct-take_all_labelled monitored es (take_labelled monitored e queue)
      (Distinct-take_labelled monitored e queue d)

Distinct-take_history :
    (monitored : List Text) (hs : List History) (queue : TextMap Text)
    → Distinct (ids queue)
    → Distinct (ids (take_history monitored hs queue))
unfolding take_history
Distinct-take_history monitored [] queue d = d
Distinct-take_history monitored (h ∷ hs) queue d = Distinct-take_history monitored hs _ (
    Distinct-take_all_labelled monitored h.labels_added _
      (Distinct-take_all_added monitored h.messages_added queue d))

pub Distinct-take_pages :
    (monitored : List Text) (pages : List Page) (queue : TextMap Text)
    → Distinct (ids queue)
    → Distinct (ids (take_pages monitored pages queue))
unfolding take_pages
Distinct-take_pages monitored [] queue d = d
Distinct-take_pages monitored (p ∷ ps) queue d =
    Distinct-take_pages monitored ps _ (Distinct-take_history monitored p.history queue d)
