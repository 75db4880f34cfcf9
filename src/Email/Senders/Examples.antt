-- ===== src/Email/Senders/Examples.antt =====
-- A thread id that Gmail does not know.
use matrimail.Email.Senders.{
  is_gmail_bad_thread_err, ApiError, coded, refused, accepted, gmail_send, Answer,
}
use matrimail.Prelude.{sym, Bool, Text, [], ap, codes, none, refl, true, ◌∙◌, ◌∷◌, ◌≡◌}
use matrimail.Email.Senders.Resent.{
  TakesWithoutThread, AtMostTwo, gmail_send-went_out, went_out, requests,
}

abbrev request : Text → Text → Answer
request [] turn = accepted (codes "id")
request (c ∷ t) turn = refused (coded 404 [])

abbrev was_bad : Answer → Bool
was_bad (refused e) = is_gmail_bad_thread_err e
was_bad (accepted id) = true

only_bad :
    (t : Text) (e : ApiError)
    → request t (codes "first") ≡ refused e
    → is_gmail_bad_thread_err e ≡ true
only_bad [] e h = cc
only_bad (c ∷ t) e h =
    let bad : is_gmail_bad_thread_err (coded 404 []) ≡ true =
      unfold is_gmail_bad_thread_err in refl in
    sym (ap was_bad h) ∙ bad

gmail_send-went_out_example :
    AtMostTwo
      (codes "t")
      (requests (gmail_send request (λ id. none) (codes "bob" ∷ []) (codes "t")))
    × (TakesWithoutThread request
        → went_out (gmail_send request (λ id. none) (codes "bob" ∷ []) (codes "t")) ≡ true)
gmail_send-went_out_example = gmail_send-went_out request (λ id. none) (codes "bob") [] (codes "t")

takes : TakesWithoutThread request
takes = ((codes "id", refl), (codes "id", refl), only_bad)
