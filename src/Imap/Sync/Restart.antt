-- ===== src/Imap/Sync/Restart.antt =====
-- What a restart of the IDLE loop leaves out: StartIDLE sets the last UID anew by
-- primeBaselineAndBackfillFor, whatever has been processed before.
use matrimail.Prelude.{
  All-append, ap, sym, ◌++◌, ◌<◌, ◌^◌, All, Bool, Bool-cases, List, Option, [], arith, inl, inr,
  leb, ltb, none, refl, some, ℕ, ◌+◌, ◌∙◌, ◌∷◌, ◌≡◌, ◌≤◌,
}
use matrimail.Imap.Uids.{Client, last_uid, in_flight}
use matrimail.Imap.Uids.Laws.{in_flight-set_last_uid, last_uid-set_last_uid}
use matrimail.Imap.Sync.{
  set_last_uid, positive, uid_before, prime, prime_baseline_and_backfill_for, Server, Answer,
  answered, refused, last_items, raised, backfill_all, finish_backfill, backfill_found, backfill,
}
use matrimail.Imap.Sync.Ascending.{Ascends-Between, Ascends}
use matrimail.Imap.Sync.Once.{run-append, check_all-Advances, check_all, IsOrdered, Advances, run}

All-Ascends : (lo n : ℕ) (xs : List ℕ) → n ≤ lo + 1 → Ascends lo xs → All (λ x. n ≤ x) xs
All-Ascends lo n [] le a = tt
All-Ascends lo n (x ∷ xs) le (l, a) = (omega arith, All-Ascends x n xs (omega arith) a)

module _ {ℓ κ} {S : Type ℓ} {E : Type κ} (process : ℕ → S → S × Option E) (is_sent : Bool) where
  -- `q` is what processing messages with UIDs from `n` makes of `s`
  abbrev pub IsFrom : ℕ → S → S → Type ℓ
  IsFrom n s r = (uids : List ℕ) × All (λ uid. n ≤ uid) uids × (r ≡ run process is_sent uids s)

  backfill_all-IsFrom :
      (baseline : ℕ) (uids : List ℕ) (top : ℕ) (s : S)
      → let (top', s') = backfill_all process baseline uids top s in
        (top ≤ top') × IsFrom (baseline + 1) s s'
  unfolding backfill_all run raised
  backfill_all-IsFrom baseline [] top s = (omega arith, ([], tt, refl))
  backfill_all-IsFrom baseline (uid ∷ uids) top s = elim (Bool-cases (leb uid baseline)) [
    | inl t ↦ rw t (backfill_all-IsFrom baseline uids top s)
    | inr f ↦
        let top' = raised process uid top (process uid s).1 in
        let (le, (xs, a, i)) = backfill_all-IsFrom baseline uids top' (process uid s).0 in
        rw f
          (omega (arith, le, raised-≤ uid top (process uid s).1), (uid ∷ xs, (ground arith, a), i))
  ]
    where
      raised-≤ : (uid top : ℕ) (o : Option E) → top ≤ raised process uid top o
      raised-≤ uid top none = unfold raised in ground arith
      raised-≤ uid top (some e) = unfold raised in omega arith

  -- what a backfill has left, with a baseline from `n - 1`
  abbrev IsPrimed : ℕ → S → Client × S → Type ℓ
  IsPrimed n s (c', s') =
      (in_flight is_sent c' ≡ []) × (n ≤ last_uid is_sent c' + 1) × IsFrom n s s'

  finish_backfill-IsPrimed :
      (n baseline : ℕ) (c : Client) (s : S) (q : ℕ × S)
      → n ≡ baseline + 1
      → in_flight is_sent c ≡ []
      → last_uid is_sent c ≡ baseline
      → IsFrom n s q.1
      → IsPrimed n s (finish_backfill process is_sent baseline c q)
  unfolding finish_backfill
  finish_backfill-IsPrimed n baseline c s (top, s') e h l f = elim (Bool-cases (ltb baseline top)) [
    | inl t ↦ rw t (
      in_flight-set_last_uid is_sent top c ∙ h,
      rw (last_uid-set_last_uid is_sent top c) (ground arith),
      f,
    )
    | inr t ↦ rw t (h, omega arith, f)
  ]

  backfill_found-IsPrimed :
      (n baseline max : ℕ) (found : Answer (List ℕ)) (c : Client) (s : S)
      → n ≡ baseline + 1
      → in_flight is_sent c ≡ []
      → last_uid is_sent c ≡ baseline
      → IsPrimed n s (backfill_found process is_sent baseline max found c s).0
  unfolding backfill_found run
  backfill_found-IsPrimed n baseline max (refused err) c s e h l = (h, omega arith, ([], tt, refl))
  backfill_found-IsPrimed n baseline max (answered uids) c s e h l =
      finish_backfill-IsPrimed n baseline c s _ e h l
        (rw e ((backfill_all-IsFrom baseline (last_items max uids) baseline s).1))

  backfill-IsPrimed :
      (now n baseline : ℕ) (server : Server) (seconds max : Option ℕ) (c : Client) (s : S)
      → n ≡ baseline + 1
      → in_flight is_sent c ≡ []
      → last_uid is_sent c ≡ baseline
      → IsPrimed n s (backfill process now server is_sent baseline seconds max c s).0
  unfolding backfill run
  backfill-IsPrimed now n baseline server (some seconds) (some max) c s e h l =
      backfill_found-IsPrimed n baseline max _ c s e h l
  backfill-IsPrimed now n baseline server none max c s e h l = (h, omega arith, ([], tt, refl))
  backfill-IsPrimed now n baseline server (some seconds) none c s e h l =
      (h, omega arith, ([], tt, refl))

  prime-IsPrimed :
      (now n : ℕ) (server : Server) (c : Client) (s : S)
      → server.select ≡ none
      → server.status ≡ answered n
      → 1 ≤ n
      → n < 2 ^ 32
      → in_flight is_sent c ≡ []
      → IsPrimed n s (prime_baseline_and_backfill_for process now (some server) is_sent c s).0
  unfolding prime_baseline_and_backfill_for prime
  prime-IsPrimed now n server c s sel st pos_ small h =
      let e : n ≡ uid_before n + 1 = omega arith in
      rw sel (
        rw st (
          backfill-IsPrimed now n (uid_before n) server (positive c.startup_backfill_seconds)
            (positive c.startup_backfill_max) (set_last_uid is_sent (uid_before n) c) s e
            (in_flight-set_last_uid is_sent (uid_before n) c ∙ h)
            (last_uid-set_last_uid is_sent (uid_before n) c)))

  IsFrom-Advances :
      (n : ℕ) (s : S) (p q : Client × S)
      → IsPrimed n s p
      → Advances process is_sent p q
      → IsFrom n s q.1
  IsFrom-Advances n s (c, t) (c', t') (h, le, (xs, a, i)) (k, (ys, b, j)) = (
    xs ++ ys,
    All-append (λ uid. n ≤ uid) xs ys a
        (All-Ascends (last_uid is_sent c) n ys le
          (Ascends-Between (last_uid is_sent c) (last_uid is_sent c') ys b)),
    j ∙ ap (run process is_sent ys) i ∙ sym (run-append process is_sent xs ys s),
  )

  -- Once the server has answered a (re)start's STATUS with UIDNEXT `n`, the start-up backfill and
  -- any number of later calls on servers that list UIDs in ascending order, from a state with
  -- nothing in flight, process only messages with UIDs from `n`: what was in the mailbox before
  -- and had not been processed yet is left out.
  pub check_all-prime :
      (now n : ℕ) (server : Server) (servers : List (Option Server)) (c : Client) (s : S)
      → server.select ≡ none
      → server.status ≡ answered n
      → 1 ≤ n
      → n < 2 ^ 32
      → in_flight is_sent c ≡ []
      → All IsOrdered servers
      → IsFrom n s
          (check_all process is_sent servers
            (prime_baseline_and_backfill_for process now (some server) is_sent c s).0).1
  check_all-prime now n server servers c s sel st pos_ small h w =
      let p = (prime_baseline_and_backfill_for process now (some server) is_sent c s).0 in
      let primed = prime-IsPrimed now n server c s sel st pos_ small h in
      IsFrom-Advances n s p (check_all process is_sent servers p) primed
        (check_all-Advances process is_sent servers p w primed.0)
