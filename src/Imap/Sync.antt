-- ===== src/Imap/Sync.antt =====
-- How Client of pkg/imap/client.go finds new messages: primeBaselineAndBackfillFor, which StartIDLE
-- calls, and checkNewMessagesFor, which the IDLE loops and CheckNewMessages call. The server's
-- answers are arguments, one record for each call; so is what processing a message does, which
-- Imap/Process models, with the state that it changes.
pub mod Ascending
pub mod Once
pub mod Restart
use matrimail.Prelude.{
  Bool, List, Option, Text, [], drop, if◌then◌else◌, leb, length, ltb, none, some, suc, ℕ, ◌%◌, ◌*◌,
  ◌+◌, ◌-◌, ◌==◌, ◌^◌, ◌∷◌,
}
use matrimail.Prelude.Int.{ℤ, pos}
use matrimail.Imap.Uids.{Client, last_uid, set_last_uid, start_uid, end_uid, drop_if_hard}

-- a command's result, or the text of its error
pub data Answer {ℓ} (A : Type ℓ) : Type ℓ where
  answered : A → Answer A
  refused : Text → Answer A

-- The answers of the server on one mailbox. A search is for the UIDs from a first one to the
-- highest, `*`, since a time where one is given; `in_time` says whether it ends before the timeout.
pub record Server : Type 0 where
  pub select : Option Text
  pub status : Answer ℕ
  pub search : ℕ → Option ℕ → Answer (List ℕ)
  pub in_time : Bool

pub data SyncError : Type 0 where
  unavailable : SyncError
  select_failed : Text → SyncError
  status_failed : Text → SyncError
  search_failed : Text → SyncError
  search_timed_out : SyncError

-- UIDNEXT - 1 and uid + 1 on 32 bits
abbrev pub uid_before : ℕ → ℕ
uid_before n = (n + (2 ^ 32 - 1)) % 2 ^ 32

abbrev pub uid_after : ℕ → ℕ
uid_after n = (n + 1) % 2 ^ 32

unfoldable pub newer : ℕ → List ℕ → List ℕ
newer last [] = []
newer last (uid ∷ uids) = let rest = newer last uids in if ltb last uid then uid ∷ rest else rest

unfoldable pub highest : ℕ → List ℕ → ℕ
highest h [] = h
highest h (uid ∷ uids) = highest (if ltb h uid then uid else h) uids

unfoldable pub positive : ℤ → Option ℕ
positive (pos (suc n)) = some (suc n)
positive i = none

-- the last `max` items
abbrev pub last_items : ℕ → List ℕ → List ℕ
last_items max uids = if ltb max (length uids) then drop (length uids - max) uids else uids

module _ {ℓ κ} {S : Type ℓ} {E : Type κ} (process : ℕ → S → S × Option E) where
  -- the loop over the new messages; a failure is only logged
  unfoldable pub process_new : Bool → List ℕ → Client → S → Client × S
  unfolding start_uid end_uid
  process_new is_sent [] c s = (c, s)
  process_new is_sent (uid ∷ uids) c s =
      let (c', mine) = start_uid uid is_sent c in
      if mine
      then process_new is_sent uids (end_uid uid is_sent c') (process uid s).0
      else process_new is_sent uids c' s

  -- the search found these
  unfoldable pub take_new : Bool → List ℕ → Client → S → Client × S
  unfolding process_new highest
  take_new is_sent [] c s = (c, s)
  take_new is_sent (uid ∷ uids) c s =
      process_new is_sent (uid ∷ uids) (set_last_uid is_sent (highest uid uids) c) s

  first_sync : Bool → Answer ℕ → Client → S → (Client × S) × Option SyncError
  first_sync is_sent (refused err) c s = ((drop_if_hard err c, s), some (status_failed err))
  first_sync is_sent (answered n) c s = ((set_last_uid is_sent (uid_before n) c, s), none)

  later_sync : Bool → Answer (List ℕ) → Client → S → (Client × S) × Option SyncError
  unfolding take_new newer
  later_sync is_sent (refused err) c s = ((drop_if_hard err c, s), some (search_failed err))
  later_sync is_sent (answered uids) c s =
      (take_new is_sent (newer (last_uid is_sent c) uids) c s, none)

  unfoldable pub check_new_messages_for :
      Option Server → Bool → Client → S → (Client × S) × Option SyncError
  unfolding first_sync later_sync
  check_new_messages_for none is_sent c s = ((c, s), some unavailable)
  check_new_messages_for (some server) is_sent c s =
      if last_uid is_sent c == 0
      then first_sync is_sent server.status c s
      else if server.in_time
      then later_sync is_sent (server.search (uid_after (last_uid is_sent c)) none) c s
      else ((c, s), some search_timed_out)

  raised : ℕ → ℕ → Option E → ℕ
  raised uid top none = if ltb top uid then uid else top
  raised uid top (some e) = top

  -- the loop of the backfill; only a message that is processed moves the highest UID
  unfoldable pub backfill_all : ℕ → List ℕ → ℕ → S → ℕ × S
  unfolding raised
  backfill_all baseline [] top s = (top, s)
  backfill_all baseline (uid ∷ uids) top s =
      if leb uid baseline
      then backfill_all baseline uids top s
      else backfill_all baseline uids (raised uid top (process uid s).1) (process uid s).0

  finish_backfill : Bool → ℕ → Client → ℕ × S → Client × S
  finish_backfill is_sent baseline c (top, s) =
      (if ltb baseline top then set_last_uid is_sent top c else c, s)

  backfill_found : Bool → ℕ → ℕ → Answer (List ℕ) → Client → S → (Client × S) × Option SyncError
  unfolding backfill_all finish_backfill
  backfill_found is_sent baseline max (refused err) c s = ((c, s), some (search_failed err))
  backfill_found is_sent baseline max (answered uids) c s = (
    finish_backfill is_sent baseline c (backfill_all baseline (last_items max uids) baseline s),
    none,
  )

  backfill :
      ℕ → Server → Bool → ℕ → Option ℕ → Option ℕ → Client → S → (Client × S) × Option SyncError
  unfolding backfill_found
  backfill now server is_sent baseline (some seconds) (some max) c s =
      backfill_found is_sent baseline max
        (server.search (uid_after baseline) (some (now - seconds * 1_000_000_000))) c s
  backfill now server is_sent baseline seconds max c s = ((c, s), none)

  prime : ℕ → Server → Bool → Option Text → Answer ℕ → Client → S → (Client × S) × Option SyncError
  unfolding backfill positive
  prime now server is_sent (some err) status c s = ((c, s), some (select_failed err))
  prime now server is_sent none (refused err) c s = ((c, s), some (status_failed err))
  prime now server is_sent none (answered n) c s =
      backfill now server is_sent (uid_before n) (positive c.startup_backfill_seconds)
        (positive c.startup_backfill_max) (set_last_uid is_sent (uid_before n) c) s

  unfoldable pub prime_baseline_and_backfill_for :
      ℕ → Option Server → Bool → Client → S → (Client × S) × Option SyncError
  unfolding prime
  prime_baseline_and_backfill_for now none is_sent c s = ((c, s), some unavailable)
  prime_baseline_and_backfill_for now (some server) is_sent c s =
      prime now server is_sent server.select server.status c s
