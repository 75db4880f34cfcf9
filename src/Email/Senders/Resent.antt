-- ===== src/Email/Senders/Resent.antt =====
-- A message is not held back by a thread id that Gmail does not know.
use matrimail.Email.Threading.{is_empty}
use matrimail.Prelude.{
  Bool-cases, not, ◌&&◌, Bool, List, Option, [], arith, codes, false, inl, inr, refl, true, ◌∷◌,
  ◌≡◌, ◌⊎◌, Text,
}
use matrimail.Email.Senders.{
  is_empty, ApiError, Answer, refused, accepted, Sent, not_sent, was_sent, identified, resend,
  gmail_send, is_gmail_bad_thread_err,
}

-- the thread ids of the requests
abbrev pub requests : Sent → List Text
requests (not_sent calls) = calls
requests (was_sent calls id) = calls

abbrev pub went_out : Sent → Bool
went_out (not_sent calls) = false
went_out (was_sent calls id) = true

identified-requests :
    (header : Text → Option Text) (calls : List Text) (a : Answer)
    → requests (identified header calls a) ≡ calls
unfolding identified
identified-requests header calls a = ground arith

identified-went_out :
    (header : Text → Option Text) (calls : List Text) (id : Text)
    → went_out (identified header calls (accepted id)) ≡ true
unfolding identified
identified-went_out header calls id = ground arith

resend-refused :
    (request : Text → Text → Answer) (header : Text → Option Text) (thread_id id1 id2 : Text)
    (err : ApiError)
    → request [] (codes "first") ≡ accepted id1
    → request [] (codes "again") ≡ accepted id2
    → request thread_id (codes "first") ≡ refused err
    → is_gmail_bad_thread_err err ≡ true
    → (went_out (resend request header thread_id (refused err)) ≡ true)
      × (requests (resend request header thread_id (refused err)) ≡ thread_id ∷ [] ∷ [])
unfolding resend
resend-refused request header [] id1 id2 err first again e bad = cc
resend-refused request header (c ∷ t) id1 id2 err first again e bad = rw bad (
    rw again (
      identified-went_out header ((c ∷ t) ∷ [] ∷ []) id2,
      identified-requests header ((c ∷ t) ∷ [] ∷ []) (accepted id2),
    ))

-- what the requests of a message are, whatever the service answers
abbrev pub AtMostTwo : Text → List Text → Type 0
AtMostTwo thread_id calls = (calls ≡ thread_id ∷ []) ⊎ (calls ≡ thread_id ∷ [] ∷ [])

resend-AtMostTwo :
    (request : Text → Text → Answer) (header : Text → Option Text) (thread_id : Text) (o : Answer)
    → AtMostTwo thread_id (requests (resend request header thread_id o))
unfolding resend
resend-AtMostTwo request header thread_id (accepted id) =
    inl (identified-requests header (thread_id ∷ []) (accepted id))
resend-AtMostTwo request header thread_id (refused e) =
    elim (Bool-cases (not (is_empty thread_id) && is_gmail_bad_thread_err e)) [
      | inl y ↦
          rw y (inr (identified-requests header (thread_id ∷ [] ∷ []) (request [] (codes "again"))))
      | inr n ↦ rw n (inl refl)
    ]

-- a service that takes the message without a thread id, and with one refuses it only for the thread
abbrev pub TakesWithoutThread : (Text → Text → Answer) → Type 0
TakesWithoutThread request =
    ((id : Text) × (request [] (codes "first") ≡ accepted id))
    × ((id : Text) × (request [] (codes "again") ≡ accepted id))
    × ((t : Text) (e : ApiError)
        → request t (codes "first") ≡ refused e
        → is_gmail_bad_thread_err e ≡ true)

resend-went_out :
    (request : Text → Text → Answer) (header : Text → Option Text) (thread_id : Text) (o : Answer)
    → TakesWithoutThread request
    → request thread_id (codes "first") ≡ o
    → went_out (resend request header thread_id o) ≡ true
unfolding resend
resend-went_out request header thread_id (accepted id) takes e =
    identified-went_out header (thread_id ∷ []) id
resend-went_out request header thread_id (refused err) takes e =
    let ((id1, first), (id2, again), only) = takes in
    (resend-refused request header thread_id id1 id2 err first again e (only thread_id err e)).0

-- Whatever the service answers, Send makes one request with the thread id, and at most one more,
-- without a thread id; and if the service takes the message without one and refuses it with one only
-- for the thread, the message goes out, whichever thread id it is given.
pub gmail_send-went_out :
    (request : Text → Text → Answer) (header : Text → Option Text) (a : Text) (to_ : List Text)
    (thread_id : Text)
    → AtMostTwo thread_id (requests (gmail_send request header (a ∷ to_) thread_id))
      × (TakesWithoutThread request
          → went_out (gmail_send request header (a ∷ to_) thread_id) ≡ true)
unfolding gmail_send
gmail_send-went_out request header a to_ thread_id = (
  resend-AtMostTwo request header thread_id (request thread_id (codes "first")),
  λ takes. resend-went_out request header thread_id (request thread_id (codes "first")) takes refl,
)
