-- ===== src/Imap/Process/Pipeline.antt =====
-- What a fetched message that is not forwarded leaves behind: nothing.
use matrimail.Prelude.{
  Bool, Option, Text, [], ap, arith, none, refl, some, sym, true, ℕ, ◌∙◌, ◌∷◌, ◌≡◌, ◌≤◌,
}
use matrimail.Email.Threading.{ParsedEmail, Externals}
use matrimail.Email.Processor.{
  Processor, ProcessError, Outcome, failed, skipped, forwarded, process_imap_message,
  process_parsed_email, is_outbound_message, file,
}
use matrimail.Connector.SentDedup.{SentDedupQuery, record_sent, cleanup}
use matrimail.Connector.Inbound.{is_our_message}
use matrimail.Connector.Inbound.Echo.{IsIdentified, process_parsed_email-record_sent}
use matrimail.Imap.Process.{
  Bridge, not_processed, Fetched, Fetch, once, again, process_with_retry, hand_on, process_fetched,
  carry_on, process_messages, process_message_with,
}

process_parsed_email-failed :
    (ext : Externals) (now now' : ℕ) (receiver mailbox : Text) (e : ParsedEmail) (p p' : Processor)
    (err : ProcessError)
    → process_parsed_email ext now now' receiver mailbox e p ≡ (p', failed err)
    → p' ≡ p
unfolding process_parsed_email file
process_parsed_email-failed ext now now' receiver mailbox e p p' err h = ground arith

process_imap_message-failed :
    (ext : Externals) (now now' : ℕ) (receiver mailbox : Text) (o : Option ParsedEmail)
    (p p' : Processor) (err : ProcessError)
    → process_imap_message ext now now' receiver mailbox o p ≡ (p', failed err)
    → p' ≡ p
unfolding process_imap_message
process_imap_message-failed ext now now' receiver mailbox none p p' err h = cc
process_imap_message-failed ext now now' receiver mailbox (some e) p p' err h =
    ground (arith, process_parsed_email-failed ext now now' receiver mailbox e p p' err)

process_imap_message-skipped :
    (ext : Externals) (now now' : ℕ) (receiver mailbox : Text) (e : ParsedEmail) (p : Processor)
    → process_parsed_email ext now now' receiver mailbox e p ≡ (p, skipped)
    → process_imap_message ext now now' receiver mailbox (some e) p ≡ (p, skipped)
unfolding process_imap_message
process_imap_message-skipped ext now now' receiver mailbox e p h = ground arith

again-failed :
    (ext : Externals) (receiver mailbox : Text) (o : Option Fetched) (p : Processor)
    (q : Processor × Outcome) (p' : Processor) (err : ProcessError)
    → ((e : ProcessError) → q.1 ≡ failed e → q.0 ≡ p)
    → again ext receiver mailbox o q ≡ (p', failed err)
    → p' ≡ p
unfolding again once
again-failed ext receiver mailbox none p (p₁, o) p' err k h =
    sym (ap (λ (q : Processor × Outcome). q.0) h) ∙ k err (ap (λ (q : Processor × Outcome). q.1) h)
again-failed ext receiver mailbox (some m) p (p₁, failed e) p' err k h = ground (
  arith,
  k e refl,
  process_imap_message-failed ext m.now m.now' receiver mailbox m.parsed p₁ p' err,
)
again-failed ext receiver mailbox (some m) p (p₁, skipped) p' err k h = cc
again-failed ext receiver mailbox (some m) p (p₁, forwarded f) p' err k h = cc

process_with_retry-failed :
    (ext : Externals) (receiver mailbox : Text) (m : Fetched) (o : Option Fetched) (p : Processor)
    (p' : Processor) (err : ProcessError)
    → process_with_retry ext receiver mailbox (m, o) p ≡ (p', failed err)
    → p' ≡ p
unfolding process_with_retry once
process_with_retry-failed ext receiver mailbox m o p p' err h =
    again-failed ext receiver mailbox o p
      (process_imap_message ext m.now m.now' receiver mailbox m.parsed p) p' err
      (λ e k.
        process_imap_message-failed ext m.now m.now' receiver mailbox m.parsed p
          (process_imap_message ext m.now m.now' receiver mailbox m.parsed p).0 e
          (ap (λ o. ((process_imap_message ext m.now m.now' receiver mailbox m.parsed p).0, o)) k))
      h

process_with_retry-skipped :
    (ext : Externals) (receiver mailbox : Text) (m : Fetched) (o : Option Fetched) (p : Processor)
    → process_imap_message ext m.now m.now' receiver mailbox m.parsed p ≡ (p, skipped)
    → process_with_retry ext receiver mailbox (m, o) p ≡ (p, skipped)
unfolding process_with_retry once again
process_with_retry-skipped ext receiver mailbox m none p h = rw h
process_with_retry-skipped ext receiver mailbox m (some n) p h = rw h

module _ {ℓ} {W : Type ℓ} (ext : Externals) (receiver mailbox : Text) (bridge : Bridge W) where
  process_messages-skipped :
      (m : Fetched × Option Fetched) (closes : Bool) (p : Processor) (w : W)
      → process_with_retry ext receiver mailbox m p ≡ (p, skipped)
      → (process_messages ext receiver mailbox bridge (m ∷ []) closes (p, w)).0 ≡ (p, w)
  unfolding process_messages process_fetched hand_on carry_on
  process_messages-skipped m closes p w h =
      ap
        (λ q.
          (carry_on ext receiver mailbox (process_messages ext receiver mailbox bridge [] closes)
            (hand_on ext receiver mailbox bridge q w)).0)
        h

  process_messages-failed :
      (m : Fetched × Option Fetched) (closes : Bool) (p : Processor) (w : W) (e : ProcessError)
      → process_with_retry ext receiver mailbox m p ≡ (p, failed e)
      → process_messages ext receiver mailbox bridge (m ∷ []) closes (p, w)
        ≡ ((p, w), some (not_processed e))
  unfolding process_messages process_fetched hand_on carry_on
  process_messages-failed m closes p w e h =
      ap
        (λ q.
          carry_on ext receiver mailbox (process_messages ext receiver mailbox bridge [] closes)
            (hand_on ext receiver mailbox bridge q w))
        h

  -- If the processor fails on the only message that a UID's FETCH gives, after the second FETCH
  -- where the failure calls for one, the call reports this failure, and has changed neither the
  -- processor with its threads nor the bridge.
  pub process_message_with-failed :
      (fetch : ℕ → Fetch) (uid : ℕ) (m : Fetched) (refetched : Option Fetched) (p : Processor)
      (w : W) (err : ProcessError)
      → (fetch uid).messages ≡ (m, refetched) ∷ []
      → (process_with_retry ext receiver mailbox (m, refetched) p).1 ≡ failed err
      → process_message_with ext receiver mailbox (some bridge) fetch uid (p, w)
        ≡ ((p, w), some (not_processed err))
  unfolding process_message_with
  process_message_with-failed fetch uid m refetched p w err f h =
      let kept =
        process_with_retry-failed ext receiver mailbox m refetched p
          (process_with_retry ext receiver mailbox (m, refetched) p).0 err
          (ap (λ o. ((process_with_retry ext receiver mailbox (m, refetched) p).0, o)) h) in
      rw f (
        process_messages-failed (m, refetched) (fetch uid).closes p w err
          (ap (λ q. (q, (process_with_retry ext receiver mailbox (m, refetched) p).1)) kept
            ∙ ap (λ o. (p, o)) h))

  -- Once the bridge has recorded a message as sent for an account, and whatever Cleanup has removed
  -- that is older, the FETCH of the message with this id from a Sent mailbox of the account changes
  -- neither the processor with its threads nor the bridge: no portal, no room and no event.
  pub process_message_with-record_sent :
      (sent_at older_than : ℕ) (message_id matrix_evt_id : Text) (q q' : SentDedupQuery)
      (fetch : ℕ → Fetch) (uid : ℕ) (m : Fetched) (refetched : Option Fetched) (echo : ParsedEmail)
      (p : Processor) (w : W)
      → record_sent sent_at receiver message_id matrix_evt_id q ≡ some q'
      → older_than ≤ sent_at
      → p.dedup_checker ≡ some (is_our_message (some (cleanup older_than q').0))
      → is_outbound_message mailbox ≡ true
      → IsIdentified echo
      → echo.message_id ≡ message_id
      → (fetch uid).messages ≡ (m, refetched) ∷ []
      → m.parsed ≡ some echo
      → (process_message_with ext receiver mailbox (some bridge) fetch uid (p, w)).0 ≡ (p, w)
  unfolding process_message_with process_messages process_fetched hand_on process_with_retry again
      once
  process_message_with-record_sent sent_at older_than message_id matrix_evt_id q q' fetch uid m
        refetched echo p w r old d out id same f parsed =
      let dropped = process_imap_message-skipped ext m.now m.now' receiver mailbox echo p (
        process_parsed_email-record_sent ext sent_at older_than m.now m.now' receiver mailbox
          message_id matrix_evt_id q q' p echo r old d out id same) in
      rw f (rw (process_with_retry-skipped ext receiver mailbox m refetched p (rw parsed dropped)))
