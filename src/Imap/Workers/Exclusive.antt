-- ===== src/Imap/Workers/Exclusive.antt =====
-- Two calls never process the same message at the same time.
use matrimail.Prelude.{
  Bool-cases, inl, inr, sym, Bool, List, [], arith, false, refl, true, ℕ, ◌==◌, ◌∷◌, ◌≡◌, ◌≢◌,
}
use matrimail.Imap.Uids.{start_uid, end_uid, Client, in_flight, set_in_flight, has_uid, delete_uid}
use matrimail.Imap.Uids.Laws.{in_flight-set_last_uid}
use matrimail.Imap.Sync.{newer, highest}
use matrimail.Imap.Workers.{
  at_start, done, finish, start, find, read, further, started, Reaches, Step, Phase, ready,
  searching, todo, busy, System, set_phase, move, after_search,
}

unfoldable pub holds : Phase → ℕ → Bool
holds ready uid = false
holds (searching last) uid = false
holds (todo uids) uid = false
holds (busy u uids) uid = u == uid

-- what is processed is in flight, and by one call
pub record IsExclusive (is_sent : Bool) (s : System) : Type 0 where
  pub flying :
      (i uid : ℕ) → holds (s.calls i) uid ≡ true → has_uid uid (in_flight is_sent s.client) ≡ true
  pub alone : (i j uid : ℕ) → holds (s.calls i) uid ≡ true → holds (s.calls j) uid ≡ true → i ≡ j

has_uid-delete_uid : (v u : ℕ) (us : List ℕ) → u ≢ v → has_uid v (delete_uid u us) ≡ has_uid v us
unfolding has_uid delete_uid
has_uid-delete_uid v u [] n = refl
has_uid-delete_uid v u (x ∷ us) n = ground (arith, has_uid-delete_uid v u us n)

in_flight-set_in_flight :
    (is_sent : Bool) (us : List ℕ) (c : Client)
    → in_flight is_sent (set_in_flight is_sent us c) ≡ us
unfolding in_flight set_in_flight
in_flight-set_in_flight true us c = refl
in_flight-set_in_flight false us c = refl

in_flight-after_search :
    (is_sent : Bool) (uids : List ℕ) (c : Client)
    → in_flight is_sent (after_search is_sent uids c) ≡ in_flight is_sent c
unfolding after_search
in_flight-after_search is_sent [] c = refl
in_flight-after_search is_sent (uid ∷ uids) c = in_flight-set_last_uid is_sent (highest uid uids) c

-- a step to a phase that holds nothing, with as much in flight
move-idle :
    (is_sent : Bool) (i : ℕ) (phase : Phase) (c : Client) (s : System)
    → IsExclusive is_sent s
    → ((uid : ℕ) → holds phase uid ≡ false)
    → in_flight is_sent c ≡ in_flight is_sent s.client
    → IsExclusive is_sent (move i phase c s)
unfolding move set_phase holds has_uid
move-idle is_sent i phase c s x n same = record {
  flying = λ j uid h. rw same (x.flying j uid (only j uid h));
  alone = λ j k uid h h'. x.alone j k uid (only j uid h) (only k uid h');
}
  where
    only :
        (j uid : ℕ) → holds (set_phase i phase s.calls j) uid ≡ true → holds (s.calls j) uid ≡ true
    only j uid h = ground (arith, n uid)

move-start :
    (is_sent : Bool) (i u : ℕ) (uids : List ℕ) (s : System)
    → IsExclusive is_sent s
    → has_uid u (in_flight is_sent s.client) ≡ false
    → IsExclusive is_sent
        (move i (busy u uids) (set_in_flight is_sent (u ∷ in_flight is_sent s.client) s.client) s)
unfolding move set_phase holds has_uid
move-start is_sent i u uids s x free = record {
  flying = λ j uid h.
      rw (in_flight-set_in_flight is_sent (u ∷ in_flight is_sent s.client) s.client)
        (flying j uid h);
  alone = λ j k uid h h'. alone j k uid h h';
}
  where
    flying :
        (j uid : ℕ)
        → holds (set_phase i (busy u uids) s.calls j) uid ≡ true
        → has_uid uid (u ∷ in_flight is_sent s.client) ≡ true
    flying j uid h = ground (arith, x.flying j uid)

    alone :
        (j k uid : ℕ)
        → holds (set_phase i (busy u uids) s.calls j) uid ≡ true
        → holds (set_phase i (busy u uids) s.calls k) uid ≡ true
        → j ≡ k
    alone j k uid h h' = ground (arith, x.alone j k uid, x.flying j uid, x.flying k uid)

move-finish :
    (is_sent : Bool) (i u : ℕ) (uids : List ℕ) (s : System)
    → IsExclusive is_sent s
    → s.calls i ≡ busy u uids
    → IsExclusive is_sent (move i (todo uids) (end_uid u is_sent s.client) s)
unfolding move set_phase end_uid holds
move-finish is_sent i u uids s x here_ = record {
  flying = λ j uid h.
      rw (in_flight-set_in_flight is_sent (delete_uid u (in_flight is_sent s.client)) s.client)
        (flying j uid h);
  alone = λ j k uid h h'. x.alone j k uid (only j uid h) (only k uid h');
}
  where
    own : holds (s.calls i) u ≡ true
    own = rw here_ (ground arith)

    only :
        (j uid : ℕ)
        → holds (set_phase i (todo uids) s.calls j) uid ≡ true
        → holds (s.calls j) uid ≡ true
    only j uid h = ground arith

    other : (j uid : ℕ) → holds (set_phase i (todo uids) s.calls j) uid ≡ true → u ≢ uid
    other j uid h e = ground (arith, x.alone i j uid (rw (sym e) own) (only j uid h))

    flying :
        (j uid : ℕ)
        → holds (set_phase i (todo uids) s.calls j) uid ≡ true
        → has_uid uid (delete_uid u (in_flight is_sent s.client)) ≡ true
    flying j uid h =
        rw (has_uid-delete_uid uid u (in_flight is_sent s.client) (other j uid h))
          (x.flying j uid (only j uid h))

start_uid-IsExclusive :
    (is_sent : Bool) (i u : ℕ) (uids : List ℕ) (s : System)
    → IsExclusive is_sent s
    → let (c, mine) = start_uid u is_sent s.client in
      IsExclusive is_sent (move i (started mine u uids) c s)
unfolding start_uid started holds
start_uid-IsExclusive is_sent i u uids s x =
    elim (Bool-cases (has_uid u (in_flight is_sent s.client))) [
      | inl t ↦ rw t (move-idle is_sent i (todo uids) s.client s x (λ uid. refl) refl)
      | inr f ↦ rw f (move-start is_sent i u uids s x f)
    ]

step-IsExclusive :
    (is_sent : Bool) (s t : System)
    → Step is_sent s t
    → IsExclusive is_sent s
    → IsExclusive is_sent t
unfolding holds
step-IsExclusive is_sent _ _ (read i s h) x = move-idle is_sent i _ s.client s x (λ uid. refl) refl
step-IsExclusive is_sent _ _ (find i last uids s h) x =
    move-idle is_sent i (todo (newer last uids)) (after_search is_sent (newer last uids) s.client) s
      x (λ uid. refl) (in_flight-after_search is_sent (newer last uids) s.client)
step-IsExclusive is_sent _ _ (start i uid uids s h) x = start_uid-IsExclusive is_sent i uid uids s x
step-IsExclusive is_sent _ _ (finish i uid uids s h) x = move-finish is_sent i uid uids s x h
step-IsExclusive is_sent _ _ (done i s h) x =
    move-idle is_sent i ready s.client s x (λ uid. refl) refl

Reaches-IsExclusive :
    (is_sent : Bool) (s t : System)
    → Reaches is_sent s t
    → IsExclusive is_sent s
    → IsExclusive is_sent t
Reaches-IsExclusive is_sent s _ at_start x = x
Reaches-IsExclusive is_sent s _ (further u t r step) x =
    step-IsExclusive is_sent u t step (Reaches-IsExclusive is_sent s u r x)

-- no call has begun
abbrev pub idle : Client → System
idle c = record { client = c; calls = λ i. ready }

-- However the steps of any number of calls for a mailbox are interleaved, two calls that are
-- processing the same message are the same call, and the message is in flight.
pub Reaches-alone :
    (is_sent : Bool) (c : Client) (t : System) (i j uid : ℕ)
    → Reaches is_sent (idle c) t
    → holds (t.calls i) uid ≡ true
    → holds (t.calls j) uid ≡ true
    → (i ≡ j) × (has_uid uid (in_flight is_sent t.client) ≡ true)
unfolding holds
Reaches-alone is_sent c t i j uid r h h' =
    let x =
      Reaches-IsExclusive is_sent (idle c) t r
        (record { flying = λ k v e. cc; alone = λ k l v e e'. cc }) in
    (x.alone i j uid h h', x.flying i uid h)
