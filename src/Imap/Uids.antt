-- ===== src/Imap/Uids.antt =====
-- The state of Client of pkg/imap/client.go by which it decides what to fetch, with startUID, endUID
-- and isHardNetErr. A UID is a 32-bit number; the maps of UIDs in flight are lists.
pub mod Laws
use matrimail.Prelude.{
  Bool, List, Option, Text, [], codes, false, if◌then◌else◌, none, some, true, ℕ, ◌==◌, ◌||◌, ◌∷◌,
}
use matrimail.Prelude.Int.{ℤ}
use matrimail.Prelude.Strings.{to_lower, contains}

-- `client` says whether the handle of the INBOX connection is set. The flag `is_sent` of the
-- operations picks the fields of the Sent mailbox.
pub record Client : Type 0 where
  pub client : Bool
  pub connected : Bool
  pub idling : Bool
  pub startup_backfill_seconds : ℤ
  pub startup_backfill_max : ℤ
  pub last_inbox_uid : ℕ
  pub last_sent_uid : ℕ
  pub in_flight_inbox : List ℕ
  pub in_flight_sent : List ℕ

unfoldable pub last_uid : Bool → Client → ℕ
last_uid true c = c.last_sent_uid
last_uid false c = c.last_inbox_uid

unfoldable pub set_last_uid : Bool → ℕ → Client → Client
set_last_uid true uid c = record c { last_sent_uid = uid }
set_last_uid false uid c = record c { last_inbox_uid = uid }

unfoldable pub in_flight : Bool → Client → List ℕ
in_flight true c = c.in_flight_sent
in_flight false c = c.in_flight_inbox

unfoldable pub set_in_flight : Bool → List ℕ → Client → Client
set_in_flight true uids c = record c { in_flight_sent = uids }
set_in_flight false uids c = record c { in_flight_inbox = uids }

unfoldable pub has_uid : ℕ → List ℕ → Bool
has_uid uid [] = false
has_uid uid (u ∷ us) = (u == uid) || has_uid uid us

unfoldable pub delete_uid : ℕ → List ℕ → List ℕ
delete_uid uid [] = []
delete_uid uid (u ∷ us) = let rest = delete_uid uid us in if u == uid then rest else u ∷ rest

unfoldable pub start_uid : ℕ → Bool → Client → Client × Bool
unfolding has_uid
start_uid uid is_sent c =
    if has_uid uid (in_flight is_sent c)
    then (c, false)
    else (set_in_flight is_sent (uid ∷ in_flight is_sent c) c, true)

unfoldable pub end_uid : ℕ → Bool → Client → Client
unfolding delete_uid
end_uid uid is_sent c = set_in_flight is_sent (delete_uid uid (in_flight is_sent c)) c

-- The argument is the text of the error, `none` for nil.
unfoldable pub is_hard_net_err : Option Text → Bool
is_hard_net_err none = false
is_hard_net_err (some err) =
    let s = to_lower err in
    contains s (codes "use of closed network connection")
    || contains s (codes "connection reset by peer")
    || contains s (codes "broken pipe")
    || contains s (codes "unexpected eof")
    || contains s (codes "eof")
    || contains s (codes "i/o timeout")
    || contains s (codes "operation timed out")
    || contains s (codes "cannot read tag")
    || contains s (codes "connection timed out")

-- what a failed command does to the INBOX connection
unfoldable pub drop_if_hard : Text → Client → Client
unfolding is_hard_net_err
drop_if_hard err c =
    if is_hard_net_err (some err)
    then record c { client = false; connected = false; idling = false }
    else c
