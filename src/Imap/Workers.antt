-- ===== src/Imap/Workers.antt =====
-- checkNewMessagesFor of pkg/imap/client.go when several calls for a mailbox run at the same time,
-- such as CheckNewMessages and the one of the IDLE loop: the steps between which `mu` is free. A
-- call that fails before it has found messages changes nothing here and is left out.
pub mod Exclusive
use matrimail.Prelude.{Bool, List, [], false, if◌then◌else◌, true, ℕ, ◌==◌, ◌∷◌, ◌≡◌}
use matrimail.Imap.Uids.{Client, last_uid, set_last_uid, start_uid, end_uid}
use matrimail.Imap.Sync.{newer, highest}

-- where a call stands: before it reads the last UID, in the search, with these messages left, and in
-- the processing of one
pub data Phase : Type 0 where
  ready : Phase
  searching : ℕ → Phase
  todo : List ℕ → Phase
  busy : ℕ → List ℕ → Phase

pub record System : Type 0 where
  pub client : Client
  pub calls : ℕ → Phase

unfoldable pub set_phase : ℕ → Phase → (ℕ → Phase) → ℕ → Phase
set_phase i phase calls j = if i == j then phase else calls j

unfoldable pub move : ℕ → Phase → Client → System → System
unfolding set_phase
move i phase c s = record { client = c; calls = set_phase i phase s.calls }

-- the last UID, once the search has found these
unfoldable pub after_search : Bool → List ℕ → Client → Client
after_search is_sent [] c = c
after_search is_sent (uid ∷ uids) c = set_last_uid is_sent (highest uid uids) c

-- the next phase, by the answer of start_uid
unfoldable pub started : Bool → ℕ → List ℕ → Phase
started true uid uids = busy uid uids
started false uid uids = todo uids

-- one step of the call `i`
pub data Step (is_sent : Bool) : System → System → Type 0 where
  read :
      (i : ℕ) (s : System)
      → s.calls i ≡ ready
      → Step is_sent s (move i (searching (last_uid is_sent s.client)) s.client s)
  find :
      (i last : ℕ) (uids : List ℕ) (s : System)
      → s.calls i ≡ searching last
      → Step is_sent s
          (move i (todo (newer last uids)) (after_search is_sent (newer last uids) s.client) s)
  start :
      (i uid : ℕ) (uids : List ℕ) (s : System)
      → s.calls i ≡ todo (uid ∷ uids)
      → Step is_sent s (
          move i
            (started (start_uid uid is_sent s.client).1 uid uids)
            (start_uid uid is_sent s.client).0
            s)
  finish :
      (i uid : ℕ) (uids : List ℕ) (s : System)
      → s.calls i ≡ busy uid uids
      → Step is_sent s (move i (todo uids) (end_uid uid is_sent s.client) s)
  done : (i : ℕ) (s : System) → s.calls i ≡ todo [] → Step is_sent s (move i ready s.client s)

pub data Reaches (is_sent : Bool) (s : System) : System → Type 0 where
  at_start : Reaches is_sent s s
  further : (t u : System) → Reaches is_sent s t → Step is_sent t u → Reaches is_sent s u
