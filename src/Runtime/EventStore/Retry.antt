-- ===== src/Runtime/EventStore/Retry.antt =====
-- event-store.ts: the attempts of `commitWithRetry`, their outcome and what they wait for.
use native.Mathlib.Nat.{pow-suc, mul_assoc, mul-one}
use workflow_engine.Prelude.{
  ℕ, zero, suc, ◌+◌, ◌-◌, ◌*◌, ◌^◌, ◌≤◌, ◌<◌, ◌≡◌, ◌≢◌, refl, ◌∙◌, Bool, true, false, List, [], ◌∷◌,
  ◌++◌, ltb, ◌⊎◌, inl, inr, if◌then◌else◌, arith, subst,
}
use workflow_engine.Runtime.EventStore.{
  EventStoreConfig, Attempt, stored, key_violation, failed, CommitEffect, commit_ok, commit_dropped,
  commit_retry, wait, backoff_ms, attempts, commit_with_retry,
}

-- The milliseconds that a list of effects waits.
abbrev pub waited : List CommitEffect → ℕ
waited [] = 0
waited (wait ms ∷ es) = ms + waited es
waited (commit_ok ∷ es) = waited es
waited (commit_dropped ∷ es) = waited es
waited (commit_retry n ∷ es) = waited es

-- The failures with the numbers `from`, `from + 1`, ..., each announced and waited for.
abbrev pub retries : EventStoreConfig → ℕ → ℕ → List CommitEffect
retries config zero from = []
retries config (suc n) from =
    commit_retry (from + 1) ∷ wait (backoff_ms config from) ∷ retries config n (from + 1)

-- What ends the attempts when the last one is answered in this way.
abbrev pub closing : Attempt → Bool × CommitEffect
closing stored = (true, commit_ok)
closing key_violation = (false, commit_dropped)
closing failed = (false, commit_dropped)

Attempt-cases : (a : Attempt) → (a ≡ stored) ⊎ ((a ≡ key_violation) ⊎ (a ≡ failed))
Attempt-cases stored = inl refl
Attempt-cases key_violation = inr (inl refl)
Attempt-cases failed = inr (inr refl)

module _ (config : EventStoreConfig) (answer : ℕ → Attempt) where
  attempts-stored :
      (left from : ℕ)
      → answer from ≡ stored
      → attempts config answer (suc left) from ≡ (true, commit_ok ∷ [])
  unfolding attempts
  attempts-stored left from h = rw (h, attempts) refl

  attempts-key_violation :
      (left from : ℕ)
      → answer from ≡ key_violation
      → attempts config answer (suc left) from ≡ (false, commit_dropped ∷ [])
  unfolding attempts
  attempts-key_violation left from h = rw (h, attempts) refl

  attempts-none : (from : ℕ) → attempts config answer 0 from ≡ (false, commit_dropped ∷ [])
  unfolding attempts
  attempts-none from = refl

  attempts-failed :
      (left from : ℕ)
      → answer from ≡ failed
      → attempts config answer (suc left) from ≡ (
          let rest = attempts config answer left (from + 1) in
          if ltb from config.commit_max_retries
          then (rest.0, commit_retry (from + 1) ∷ wait (backoff_ms config from) ∷ rest.1)
          else rest)
  unfolding attempts
  attempts-failed left from h = rw (h, attempts) refl

  -- An answer that ends the attempts, by itself or as the last one.
  closed :
      (left from : ℕ)
      → from + left ≡ config.commit_max_retries
      → (answer from ≢ failed) ⊎ (left ≡ 0)
      → attempts config answer (suc left) from
        ≡ ((closing (answer from)).0, (closing (answer from)).1 ∷ [])
  closed left from e d = elim (Attempt-cases (answer from)) [
    | inl s ↦ attempts-stored left from s ∙ rw s refl
    | inr (inl k) ↦ attempts-key_violation left from k ∙ rw k refl
    | inr (inr f) ↦ elim d [
      | inl n ↦ absurd (n f)
      | inr z ↦
          (let at_end : ltb from config.commit_max_retries ≡ false = ground arith in
            attempts-failed left from f
            ∙ rw (at_end, z, f) (let nothing = attempts-none (from + 1) in rw nothing refl))
    ]
  ]

  decided :
      (n left from : ℕ)
      → from + left ≡ config.commit_max_retries + 1
      → n < left
      → ((i : ℕ) → i < n → answer (from + i) ≡ failed)
      → (answer (from + n) ≢ failed) ⊎ (left ≡ suc n)
      → attempts config answer left from ≡ (
        (closing (answer (from + n))).0,
        retries config n from ++ (closing (answer (from + n))).1 ∷ [],
      )
  decided n zero from e l h d = absurd (omega arith)
  decided zero (suc left) from e l h d =
      let here : from + 0 ≡ from = omega arith in
      rw here (
        closed left from (omega arith)
          (elim (rw here at d) [ inl a ↦ inl a | inr b ↦ inr (omega arith) ]))
  decided (suc n) (suc left) from e l h d =
      let first : answer from ≡ failed =
        subst (λ k. answer k ≡ failed) (omega arith) (h 0 (omega arith)) in
      let before : ltb from config.commit_max_retries ≡ true = ground arith in
      let shift : (i : ℕ) → from + suc i ≡ from + 1 + i = λ i. omega arith in
      let rest =
        decided n left (from + 1) (omega arith) (omega arith)
          (λ i l. subst (λ k. answer k ≡ failed) (shift i) (h (suc i) (omega arith)))
          (elim (rw (shift n) at d) [ inl a ↦ inl a | inr b ↦ inr (omega arith) ]) in
      attempts-failed left from first ∙ rw (before, rest, shift n) refl

-- Where all answers before the one with number `n` are failures that can be tried again, and `n` is
-- the last number or its answer is not such a failure, the batch is stored if and only if that
-- answer says so; each earlier failure is announced and waited for, in order, and one message ends
-- the attempts.
pub commit_with_retry_lem :
    (config : EventStoreConfig) (answer : ℕ → Attempt) (n : ℕ)
    → n ≤ config.commit_max_retries
    → ((i : ℕ) → i < n → answer i ≡ failed)
    → (answer n ≢ failed) ⊎ (n ≡ config.commit_max_retries)
    → commit_with_retry config answer
      ≡ ((closing (answer n)).0, retries config n 0 ++ (closing (answer n)).1 ∷ [])
unfolding commit_with_retry
commit_with_retry_lem config answer n l h d =
    let zero_plus : (i : ℕ) → 0 + i ≡ i = λ i. omega arith in
    let run =
      decided config answer n (config.commit_max_retries + 1) 0 (omega arith) (omega arith)
        (λ i k. rw (zero_plus i) (h i k))
        (rw (zero_plus n) (elim d [ inl a ↦ inl a | inr b ↦ inr (omega arith) ])) in
    rw (zero_plus n) at run

doubled :
    (config : EventStoreConfig) (from : ℕ)
    → backoff_ms config (from + 1) ≡ backoff_ms config from + backoff_ms config from
unfolding backoff_ms
doubled config from =
    let next : from + 1 ≡ suc from = omega arith in
    let power : 2 ^ suc from ≡ 2 ^ from * 2 = pow-suc 2 from in
    rw (next, power)
      (let split = mul_assoc config.commit_backoff_ms (2 ^ from) 2 in omega (arith, split))

backoff-add_le :
    (config : EventStoreConfig) (from k : ℕ) → backoff_ms config from ≤ backoff_ms config (k + from)
backoff-add_le config from zero = let same : 0 + from ≡ from = omega arith in rw same (omega arith)
backoff-add_le config from (suc k) =
    let more = doubled config (k + from) in
    let before = backoff-add_le config from k in
    let next : suc k + from ≡ k + from + 1 = omega arith in rw next (omega (arith, more, before))

backoff_mono :
    (config : EventStoreConfig) (from last : ℕ)
    → from ≤ last
    → backoff_ms config from ≤ backoff_ms config last
backoff_mono config from last l =
    let same : last - from + from ≡ last = omega arith in
    let far = backoff-add_le config from (last - from) in rw same at far

module _ (config : EventStoreConfig) (answer : ℕ → Attempt) where
  closed_wait :
      (left from : ℕ)
      → from + left ≡ config.commit_max_retries
      → (answer from ≢ failed) ⊎ (left ≡ 0)
      → waited (attempts config answer (suc left) from).1 + backoff_ms config from
        ≤ backoff_ms config config.commit_max_retries
  closed_wait left from e d =
      let b = backoff_mono config from config.commit_max_retries (omega arith) in
      rw (closed config answer left from e d) (silent (answer from) b)
    where
      silent :
          (a : Attempt)
          → backoff_ms config from ≤ backoff_ms config config.commit_max_retries
          → waited ((closing a).1 ∷ []) + backoff_ms config from
            ≤ backoff_ms config config.commit_max_retries
      silent stored b = omega (arith, b)
      silent key_violation b = omega (arith, b)
      silent failed b = omega (arith, b)

  attempts_wait :
      (left from : ℕ)
      → from + left ≡ config.commit_max_retries
      → waited (attempts config answer (suc left) from).1 + backoff_ms config from
        ≤ backoff_ms config config.commit_max_retries
  attempts_wait zero from e = closed_wait 0 from e (inr refl)
  attempts_wait (suc left) from e = elim (Attempt-cases (answer from)) [
    | inl s ↦ closed_wait (suc left) from e (inl (rw s (λ wrong. absurd (cc wrong))))
    | inr (inl k) ↦ closed_wait (suc left) from e (inl (rw k (λ wrong. absurd (cc wrong))))
    | inr (inr f) ↦
        (let before : ltb from config.commit_max_retries ≡ true = ground arith in
          let rest = attempts_wait left (from + 1) (omega arith) in
          let more = doubled config from in
          rw (attempts-failed config answer (suc left) from f)
            (rw before (omega (arith, rest, more))))
  ]

-- Whatever the database answers, the waits of one batch are, together with one more first back-off,
-- at most the first back-off times two to the number of retries.
pub waited-commit_with_retry :
    (config : EventStoreConfig) (answer : ℕ → Attempt)
    → waited (commit_with_retry config answer).1 + config.commit_backoff_ms
      ≤ config.commit_backoff_ms * 2 ^ config.commit_max_retries
unfolding commit_with_retry backoff_ms
waited-commit_with_retry config answer =
    let one_more : config.commit_max_retries + 1 ≡ suc config.commit_max_retries = omega arith in
    let whole = attempts_wait config answer config.commit_max_retries 0 (omega arith) in
    rw one_more (omega (arith, whole, mul-one config.commit_backoff_ms))
