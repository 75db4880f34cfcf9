-- ===== src/Imap/Sync/Once.antt =====
-- Which messages a sequence of calls of checkNewMessagesFor hands on.
use matrimail.Prelude.{
  All, Bool, Bool-cases, List, Option, [], ap, arith, inl, inr, none, refl, some, sym, ℕ, ◌++◌,
  ◌==◌, ◌∙◌, ◌∷◌, ◌≡◌, ◌≤◌,
}
use matrimail.Imap.Uids.{Client, last_uid, set_last_uid, in_flight, drop_if_hard}
use matrimail.Imap.Uids.Laws.{
  start_uid-free, end_uid-started, in_flight-set_last_uid, last_uid-set_last_uid,
  in_flight-drop_if_hard, last_uid-drop_if_hard,
}
use matrimail.Imap.Sync.{
  Server, Answer, answered, refused, uid_before, uid_after, newer, highest, process_new, take_new,
  first_sync, later_sync, check_new_messages_for,
}
use matrimail.Imap.Sync.Ascending.{
  Ascends, Between, Between-append, Ascends-Between, Ascends-lower, newer-Ascends, highest-Between,
}

-- every search lists its UIDs in ascending order, as AllUIDs of a UID set does
abbrev pub IsOrdered : Option Server → Type 0
IsOrdered none = Unit
IsOrdered (some server) =
    (from : ℕ) (since : Option ℕ) (uids : List ℕ)
    → server.search from since ≡ answered uids
    → Ascends 0 uids

module _ {ℓ κ} {S : Type ℓ} {E : Type κ} (process : ℕ → S → S × Option E) (is_sent : Bool) where
  -- one message after the other
  unfoldable pub run : List ℕ → S → S
  run [] s = s
  run (uid ∷ uids) s = run uids (process uid s).0

  pub run-append : (xs ys : List ℕ) (s : S) → run (xs ++ ys) s ≡ run ys (run xs s)
  unfolding run
  run-append [] ys s = refl
  run-append (x ∷ xs) ys s = run-append xs ys (process x s).0

  process_new-run :
      (uids : List ℕ) (c : Client) (s : S)
      → in_flight is_sent c ≡ []
      → process_new process is_sent uids c s ≡ (c, run uids s)
  unfolding process_new run
  process_new-run [] c s h = refl
  process_new-run (uid ∷ uids) c s h =
      rw (start_uid-free uid is_sent c h)
        (rw (end_uid-started uid is_sent c h) (process_new-run uids c (process uid s).0 h))

  -- A call or several have processed the messages `uids` in turn, all above the last UID before
  -- and none above the last UID after.
  abbrev pub Advances : Client × S → Client × S → Type ℓ
  Advances (c, s) (c', s') =
      (in_flight is_sent c' ≡ [])
      × ((uids : List ℕ) × Between (last_uid is_sent c) uids (last_uid is_sent c')
          × (s' ≡ run uids s))

  take_new-Advances :
      (uids : List ℕ) (c : Client) (s : S)
      → in_flight is_sent c ≡ []
      → Ascends (last_uid is_sent c) uids
      → Advances (c, s) (take_new process is_sent uids c s)
  unfolding take_new run
  take_new-Advances [] c s h a = (h, ([], omega arith, refl))
  take_new-Advances (uid ∷ uids) c s h (l, a) =
      let c' = set_last_uid is_sent (highest uid uids) c in
      let free : in_flight is_sent c' ≡ [] =
        in_flight-set_last_uid is_sent (highest uid uids) c ∙ h in
      rw (process_new-run (uid ∷ uids) c' s free) (
        free,
        (
          uid ∷ uids,
          rw (last_uid-set_last_uid is_sent (highest uid uids) c)
              (highest-Between (last_uid is_sent c) uid uids l a),
          refl,
        ),
      )

  still :
      (c c' : Client) (s : S)
      → in_flight is_sent c' ≡ []
      → last_uid is_sent c ≤ last_uid is_sent c'
      → Advances (c, s) (c', s)
  unfolding run
  still c c' s h le = (h, ([], le, refl))

  first_sync-Advances :
      (status : Answer ℕ) (c : Client) (s : S)
      → in_flight is_sent c ≡ []
      → last_uid is_sent c ≡ 0
      → Advances (c, s) (first_sync process is_sent status c s).0
  unfolding first_sync
  first_sync-Advances (refused err) c s h z =
      still c (drop_if_hard err c) s (in_flight-drop_if_hard err is_sent c ∙ h) (omega arith)
  first_sync-Advances (answered n) c s h z =
      still c (set_last_uid is_sent (uid_before n) c) s
        (in_flight-set_last_uid is_sent (uid_before n) c ∙ h) (omega arith)

  later_sync-Advances :
      (found : Answer (List ℕ)) (c : Client) (s : S)
      → in_flight is_sent c ≡ []
      → ((uids : List ℕ) → found ≡ answered uids → Ascends 0 uids)
      → Advances (c, s) (later_sync process is_sent found c s).0
  unfolding later_sync
  later_sync-Advances (refused err) c s h o =
      still c (drop_if_hard err c) s (in_flight-drop_if_hard err is_sent c ∙ h)
        (omega (arith, last_uid-drop_if_hard err is_sent c))
  later_sync-Advances (answered uids) c s h o =
      let last = last_uid is_sent c in
      take_new-Advances (newer last uids) c s h
        (newer-Ascends 0 last last uids (inr (omega arith)) (o uids refl))

  check-Advances :
      (o : Option Server) (c : Client) (s : S)
      → IsOrdered o
      → in_flight is_sent c ≡ []
      → Advances (c, s) (check_new_messages_for process o is_sent c s).0
  unfolding check_new_messages_for
  check-Advances none c s w h = still c c s h (omega arith)
  check-Advances (some server) c s w h = elim (Bool-cases (last_uid is_sent c == 0)) [
    | inl z ↦ rw z (first_sync-Advances server.status c s h (ground arith))
    | inr f ↦ rw f (elim (Bool-cases server.in_time) [
      | inl t ↦ rw t (later_sync-Advances _ c s h (w (uid_after (last_uid is_sent c)) none))
      | inr t ↦ rw t (still c c s h (omega arith))
    ])
  ]

  -- several calls, one after the other; their errors are only logged
  unfoldable pub check_all : List (Option Server) → Client × S → Client × S
  check_all [] q = q
  check_all (o ∷ os) (c, s) = check_all os (check_new_messages_for process o is_sent c s).0

  Advances-trans : (p q r : Client × S) → Advances p q → Advances q r → Advances p r
  Advances-trans (c, s) (d, t) (e, u) (h, (xs, a, i)) (k, (ys, b, j)) = (
    k,
    (
      xs ++ ys,
      Between-append (last_uid is_sent c) (last_uid is_sent d) (last_uid is_sent e) xs ys a b,
      j ∙ ap (run ys) i ∙ sym (run-append xs ys s),
    ),
  )

  -- From a state with nothing in flight, any number of calls on servers that list UIDs in ascending
  -- order, whichever of their commands fail or time out and whichever messages fail, process
  -- messages in strictly ascending order of UID, so none twice, and only above the last UID at the
  -- start and up to the last UID at the end, and leave nothing in flight.
  pub check_all-Advances :
      (servers : List (Option Server)) (q : Client × S)
      → All IsOrdered servers
      → in_flight is_sent q.0 ≡ []
      → Advances q (check_all servers q)
  unfolding check_all
  check_all-Advances [] (c, s) w h = still c c s h (omega arith)
  check_all-Advances (o ∷ os) (c, s) (w, ws) h =
      let (d, t) = (check_new_messages_for process o is_sent c s).0 in
      let first = check-Advances o c s w h in
      Advances-trans (c, s) (d, t) (check_all os (d, t)) first
        (check_all-Advances os (d, t) ws first.0)

  -- `r` is what processing messages above UID 1 makes of `s`
  abbrev pub IsPastFirst : S → S → Type ℓ
  IsPastFirst s r = (uids : List ℕ) × Ascends 1 uids × (r ≡ run uids s)

  IsPastFirst-Advances :
      (c : Client) (s : S) (q : Client × S)
      → 1 ≤ last_uid is_sent c
      → Advances (c, s) q
      → IsPastFirst s q.1
  IsPastFirst-Advances c s (c', s') le (h, (uids, b, i)) = (
    uids,
    Ascends-lower 1 (last_uid is_sent c) uids le
        (Ascends-Between (last_uid is_sent c) (last_uid is_sent c') uids b),
    i,
  )

  IsPastFirst-same : (r s t : S) → t ≡ s → IsPastFirst t r → IsPastFirst s r
  IsPastFirst-same r s t e (uids, a, i) = (uids, a, i ∙ ap (run uids) e)

  first_sync-same :
      (status : Answer ℕ) (c : Client) (s : S) → (first_sync process is_sent status c s).0.1 ≡ s
  unfolding first_sync
  first_sync-same (answered n) c s = refl
  first_sync-same (refused err) c s = refl

  check-zero :
      (o : Option Server) (c : Client) (s : S)
      → last_uid is_sent c ≡ 0
      → (check_new_messages_for process o is_sent c s).0.1 ≡ s
  unfolding check_new_messages_for
  check-zero none c s z = refl
  check-zero (some server) c s z = rw z (first_sync-same server.status c s)

  -- If the last UID is 0, as it is for a mailbox that was empty when its baseline was set, with
  -- nothing in flight, any number of calls on servers that list UIDs in ascending order process
  -- only messages above UID 1: the first message to arrive is never processed.
  pub check_all-first :
      (servers : List (Option Server)) (c : Client) (s : S)
      → All IsOrdered servers
      → in_flight is_sent c ≡ []
      → last_uid is_sent c ≡ 0
      → IsPastFirst s (check_all servers (c, s)).1
  unfolding check_all run
  check_all-first [] c s w h z = ([], tt, refl)
  check_all-first (o ∷ os) c s (w, ws) h z =
      let (d, t) = (check_new_messages_for process o is_sent c s).0 in
      let free : in_flight is_sent d ≡ [] = (check-Advances o c s w h).0 in
      IsPastFirst-same (check_all os (d, t)).1 s t (check-zero o c s z)
        (elim (Bool-cases (last_uid is_sent d == 0)) [
          | inl e ↦ check_all-first os d t ws free (ground arith)
          | inr e ↦
              IsPastFirst-Advances d t (check_all os (d, t)) (ground arith)
                (check_all-Advances os (d, t) ws free)
        ])
