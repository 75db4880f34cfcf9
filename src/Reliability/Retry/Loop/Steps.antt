-- ===== src/Reliability/Retry/Loop/Steps.antt =====
-- One attempt of RetryWithBackoff and what follows it, and by induction all attempts from one on.
use matrimail.Prelude.{
  ap, inl, inr, refl, some, sym, zero, ◌-◌, ◌∙◌, false, ◌⊎◌, true, suc, none, arith, ◌+◌, ◌≢◌, ◌≡◌,
  ◌<◌, ◌≤◌, Option, ℕ,
}
use mathlib.Core.Path.{subst}
use matrimail.Prelude.Int.{ℤ, pos_part}
use matrimail.Reliability.Breaker.{Error}
use matrimail.Reliability.Retry.{Option, ℕ, should_retry}
use matrimail.Reliability.Retry.Delay.{Float, RetryConfig}
use matrimail.Reliability.Retry.Loop.{stop, Run, Environment, attempts, after_call}
use native.Mathlib.Decide.{dec_lt}
use native.Mathlib.Nat.{add-zero}

-- The number of attempts that a configuration allows: at least one.
abbrev pub allowed : ℤ → ℕ
allowed n = suc (pos_part n - 1)

-- An outcome after which there is nothing to retry: success, or an error of a final category.
abbrev pub IsFinal : Option Error → Type 0
IsFinal o = (o ≡ none) ⊎ (should_retry o ≡ false)

abbrev pub IsRetried : Option Error → Type 0
IsRetried o = (o ≢ none) × (should_retry o ≡ true)

module _ (f : Float) (env : Environment f) where
  -- Neither the context nor a wait is cut short.
  pub record IsPatient : Type 0 where
    pub live : (n : ℕ) → env.ctx_err n ≡ none
    pub fires : (n : ℕ) → env.wake n ≡ none

  module _ (c : RetryConfig f) where
    after_call_calls :
        (left n : ℕ) (o : Option Error) (rest : Run)
        → rest.calls ≤ left
        → (after_call f env c left n o rest).calls ≤ left
    unfolding after_call
    after_call_calls left n none rest h = omega arith
    after_call_calls zero n (some e) rest h = omega arith
    after_call_calls (suc left) n (some e) rest h = ground arith

    after_call-IsFinal :
        (left n : ℕ) (o : Option Error) (rest : Run)
        → IsFinal o
        → (after_call f env c left n o rest).result ≡ o
          × ((after_call f env c left n o rest).calls ≡ 0)
    unfolding after_call
    after_call-IsFinal left n none rest h = (refl, refl)
    after_call-IsFinal zero n (some e) rest h = (refl, refl)
    after_call-IsFinal (suc left) n (some e) rest h = ground arith

    after_call-IsRetried :
        (left n : ℕ) (o : Option Error) (rest : Run)
        → IsPatient
        → IsRetried o
        → ((after_call f env c (suc left) n o rest).result ≡ rest.result)
          × ((after_call f env c (suc left) n o rest).calls ≡ rest.calls)
    unfolding after_call
    after_call-IsRetried left n none rest p h = absurd (h.0 refl)
    after_call-IsRetried left n (some e) rest p h = rw (p.live n, p.fires n) (ground arith)

    pub calls_pos :
        (left n : ℕ) (last : Option Error) → 1 ≤ (attempts f env c (suc left) n last).calls
    unfolding attempts
    calls_pos left n last = omega arith

    pub calls_le : (left n : ℕ) (last : Option Error) → (attempts f env c left n last).calls ≤ left
    unfolding attempts
    calls_le zero n last = omega arith
    calls_le (suc left) n last = omega (
      arith,
      after_call_calls left n (env.outcome n) (attempts f env c left (n + 1) (env.outcome n))
          (calls_le left (n + 1) (env.outcome n)),
    )

    settle_here :
        (left n m : ℕ) (last : Option Error)
        → IsFinal (env.outcome m)
        → n ≡ m
        → ((attempts f env c (suc left) n last).result ≡ env.outcome m)
          × (n + (attempts f env c (suc left) n last).calls ≡ m + 1)
    unfolding attempts
    settle_here left n m last fin e =
        let err = env.outcome n in
        let (r, k) = after_call-IsFinal left n err (attempts f env c left (n + 1) err) (rw e fin) in
        (r ∙ ap env.outcome e, omega (arith, k))

    attempts_step :
        (left n : ℕ) (last : Option Error)
        → IsPatient
        → IsRetried (env.outcome n)
        → ((attempts f env c (suc (suc left)) n last).result
            ≡ (attempts f env c (suc left) (n + 1) (env.outcome n)).result)
          × ((attempts f env c (suc (suc left)) n last).calls
              ≡ suc (attempts f env c (suc left) (n + 1) (env.outcome n)).calls)
    unfolding attempts
    attempts_step left n last p again =
        let err = env.outcome n in
        let (r, k) =
          after_call-IsRetried left n err (attempts f env c (suc left) (n + 1) err) p again in
        (r, ap suc k)

    last_attempt_lem :
        (n : ℕ) (o : Option Error) (rest : Run)
        → ((after_call f env c zero n o rest).result ≡ o)
          × ((after_call f env c zero n o rest).calls ≡ 0)
    unfolding after_call
    last_attempt_lem n none rest = (refl, refl)
    last_attempt_lem n (some e) rest = (refl, refl)

    last_attempt :
        (n : ℕ) (last : Option Error)
        → ((attempts f env c 1 n last).result ≡ env.outcome n)
          × ((attempts f env c 1 n last).calls ≡ 1)
    unfolding attempts
    last_attempt n last =
        let (r, k) = last_attempt_lem n (env.outcome n) (stop (env.outcome n)) in (r, ap suc k)

    pub attempts_settle :
        (left n m : ℕ) (last : Option Error)
        → IsPatient
        → n ≤ m
        → m < n + left
        → IsFinal (env.outcome m)
        → ((j : ℕ) → n ≤ j → j < m → IsRetried (env.outcome j))
        → ((attempts f env c left n last).result ≡ env.outcome m)
          × (n + (attempts f env c left n last).calls ≡ m + 1)
    attempts_settle zero n m last p le lt fin earlier = absurd (omega arith)
    attempts_settle (suc zero) n m last p le lt fin earlier =
        settle_here zero n m last fin (omega arith)
    attempts_settle (suc (suc left)) n m last p le lt fin earlier = elim (dec_lt n m) [
      | yes before ↦
          let (r, k) = attempts_step left n last p (earlier n (omega arith) before) in
          let (r', k') =
            attempts_settle (suc left) (n + 1) m (env.outcome n) p (omega arith) (omega arith) fin
              (λ j a b. earlier j (omega arith) b) in
          (r ∙ r', omega (arith, k, k'))
      | no here ↦ settle_here (suc left) n m last fin (omega arith)
    ]

    -- With every outcome worth a retry, all attempts are made and the last error comes back.
    pub attempts_exhaust :
        (left n m : ℕ) (last : Option Error)
        → IsPatient
        → n + left ≡ m
        → ((j : ℕ) → n ≤ j → j < m → IsRetried (env.outcome j))
        → ((attempts f env c (suc left) n last).result ≡ env.outcome m)
          × ((attempts f env c (suc left) n last).calls ≡ suc left)
    attempts_exhaust zero n m last p e all =
        let (r, k) = last_attempt n last in (r ∙ ap env.outcome (omega (arith, e)), k)
    attempts_exhaust (suc left) n m last p e all =
        let (r, k) = attempts_step left n last p (all n (omega arith) (omega arith)) in
        let (r', k') =
          attempts_exhaust left (n + 1) m (env.outcome n) p (omega arith)
            (λ j a b. all j (omega arith) b) in
        (r ∙ r', omega (arith, k, k'))

  -- Which call succeeded, and that every call before it failed with an error worth a retry.
  abbrev pub Succeeded : ℕ → ℕ → Type 0
  Succeeded n calls =
      (k : ℕ) × (calls ≡ k + 1)
      × (env.outcome (n + k) ≡ none)
      × ((j : ℕ) → n ≤ j → j < n + k → IsRetried (env.outcome j))

  Succeeded-here : (n calls : ℕ) → env.outcome n ≡ none → calls ≡ 1 → Succeeded n calls
  Succeeded-here n calls h e = (0, omega arith, rw add-zero h, λ j a b. absurd (omega arith))

  Succeeded-later :
      (n calls : ℕ) → IsRetried (env.outcome n) → Succeeded (n + 1) calls → Succeeded n (suc calls)
  Succeeded-later n calls again (k, e, h, earlier) =
      (k + 1, omega arith, ap env.outcome (omega arith) ∙ h, before)
    where
      before : (j : ℕ) → n ≤ j → j < n + (k + 1) → IsRetried (env.outcome j)
      before j a b = elim (dec_lt n j) [
        | yes later ↦ earlier j (omega arith) (omega arith)
        | no here ↦ let same : j ≡ n = omega arith in rw same again
      ]

  module _ (c : RetryConfig f) where
    after_call-none :
        (left n : ℕ) (o : Option Error) (rest : Run)
        → (after_call f env c left n o rest).result ≡ none
        → ((o ≡ none) × ((after_call f env c left n o rest).calls ≡ 0))
          ⊎ (IsRetried o
              × (0 < left)
              × (rest.result ≡ none)
              × ((after_call f env c left n o rest).calls ≡ rest.calls))
    unfolding after_call
    after_call-none left n none rest h = inl (refl, refl)
    after_call-none zero n (some e) rest h = cc
    after_call-none (suc left) n (some e) rest h = ground arith

    pub attempts-none :
        (left n : ℕ) (last : Option Error)
        → (attempts f env c (suc left) n last).result ≡ none
        → Succeeded n (attempts f env c (suc left) n last).calls
    unfolding attempts
    attempts-none zero n last h =
        let (r, k) = last_attempt_lem c n (env.outcome n) (stop (env.outcome n)) in
        Succeeded-here n _ (sym r ∙ h) (ap suc k)
    attempts-none (suc left) n last h =
        elim (after_call-none (suc left) n (env.outcome n)
          (attempts f env c (suc left) (n + 1) (env.outcome n)) h) [
            | inl (o, k) ↦ Succeeded-here n _ o (ap suc k)
            | inr (again, _, r, k) ↦
                subst (λ t. Succeeded n (suc t)) (sym k)
                  (Succeeded-later n _ again (attempts-none left (n + 1) (env.outcome n) r))
          ]
