-- ===== src/Import/Attempts.antt =====
-- internal/exporter/service.go: how often an operation is tried, and what its failure is then.
use emby_migrator.Prelude.{
  ℕ, zero, suc, ◌+◌, ◌-◌, ◌≤◌, ◌<◌, ◌≡◌, ◌⊎◌, inl, inr, refl, subst, ◌∙◌, Bool, true, false, ◌&&◌,
  Option, none, some, leb, ◌==◌, Bool-cases, if_cases, option_cases, arith,
}
use emby_migrator.Import.Retry.{
  Failure, is_transient_import_error, Moment, before, after, waiting, Retried, succeeded,
  context_ended, failed, failed_after, allowed, give_up, attempt, retry_from, retry_with_timeout,
}

module _ (operation : ℕ → Option Failure) (context : Moment → Option Failure) (attempts : ℕ) where
  abbrev most : ℕ
  most = allowed operation context attempts

  -- A call that is followed by another: it failed in a way that may pass, and the context had not ended.
  abbrev pub IsTransient : ℕ → Type 0
  IsTransient k =
      (err : Failure) × (operation k ≡ some err)
      × (is_transient_import_error err ≡ true)
      × (context (before k) ≡ none)
      × (context (after k) ≡ none)
      × (context (waiting k) ≡ none)

  -- What the outcome says, after so many calls.
  abbrev pub Says : Retried → ℕ → Type 0
  Says succeeded calls = (k : ℕ) × (calls ≡ suc k) × (operation k ≡ none)
  Says (context_ended e) calls = (m : Moment) × (context m ≡ some e)
  Says (failed err) calls =
      (k : ℕ) × (calls ≡ suc k)
      × (operation k ≡ some err)
      × ((is_transient_import_error err ≡ false) ⊎ ((calls ≡ 1) × (most ≡ 1)))
  Says (failed_after n err) calls =
      (k : ℕ) × (calls ≡ suc k)
      × (calls ≡ n)
      × (n ≡ most)
      × (operation k ≡ some err)
      × (is_transient_import_error err ≡ true)

  -- From an attempt on: no more calls than allowed, each but the last one a failure that may pass.
  abbrev IsGood : ℕ → Retried × ℕ → Type 0
  IsGood n (r, calls) =
      (calls ≤ most) × ((k : ℕ) → n ≤ k → suc k < calls → IsTransient k) × Says r calls

  attempt-IsGood :
      (n : ℕ) (next : Failure → Retried × ℕ)
      → suc n ≤ most
      → ((err : Failure)
          → operation n ≡ some err
          → context (before n) ≡ none
          → context (after n) ≡ none
          → IsGood n (next err))
      → IsGood n (attempt operation context attempts n next)
  unfolding attempt
  attempt-IsGood n next h k =
      option_cases (IsGood n) (context (before n)) _ _
        (λ e.
          option_cases (IsGood n) (operation n) _ _
            (λ f. (h, λ j a b. absurd (omega (arith, a, b)), (n, refl, f)))
            (λ err f.
              option_cases (IsGood n) (context (after n)) _ _ (λ g. k err f e g)
                (λ e g. (h, λ j a b. absurd (omega (arith, a, b)), (after n, g)))))
        (λ e g. (omega (arith, h), λ j a b. absurd (omega (arith, a, b)), (before n, g)))

  give_up-Says :
      (n : ℕ) (err : Failure)
      → operation n ≡ some err
      → (is_transient_import_error err ≡ false) ⊎ (suc n ≡ most)
      → suc n ≤ most
      → Says (give_up operation context attempts err) (suc n)
  unfolding give_up
  give_up-Says n err f last h =
      let asked : Bool = leb 2 most && is_transient_import_error err in
      if_cases (λ r. Says r (suc n)) asked _ _
        (λ t.
          let passing : is_transient_import_error err ≡ true = ground (arith, t) in
          let ended : suc n ≡ most = elim last [
            | inl l ↦ absurd (ground (arith, l, passing))
            | inr l ↦ l
          ] in
          (n, refl, ended, refl, f, passing))
        (λ t. (
          n,
          refl,
          f,
          elim last [
            | inl l ↦ inl l
            | inr l ↦ elim (Bool-cases (is_transient_import_error err)) [
              | inl p ↦ (let one : most ≡ 1 = ground (arith, t, p, l) in inr (l ∙ one, one))
              | inr p ↦ inl p
            ]
          ],
        ))

  -- With this attempt, the later ones.
  with_this :
      (n calls : ℕ)
      → IsTransient n
      → ((k : ℕ) → suc n ≤ k → suc k < calls → IsTransient k)
      → (k : ℕ) → n ≤ k
      → suc k < calls
      → IsTransient k
  with_this n calls this later k a b = elim (Bool-cases (n == k)) [
    | inl e ↦ subst IsTransient (ground arith) this
    | inr e ↦ later k (ground arith) b
  ]

  retry_from-IsGood :
      (left n : ℕ) → n + suc left ≡ most → IsGood n (retry_from operation context attempts left n)
  unfolding retry_from
  retry_from-IsGood zero n h = attempt-IsGood n _ (omega (arith, h)) (λ err f _ _. (
    omega (arith, h),
    λ j a b. absurd (omega (arith, a, b)),
    give_up-Says n err f (inr (omega (arith, h))) (omega (arith, h)),
  ))
  retry_from-IsGood (suc left) n h =
      let (bound, earlier, says) = retry_from-IsGood left (suc n) (omega (arith, h)) in
      attempt-IsGood n _ (omega (arith, h)) (λ err f e g.
        if_cases (IsGood n) (is_transient_import_error err) _ _
          (λ t.
            option_cases (IsGood n) (context (waiting n)) _ _
              (λ w. (bound, with_this n _ (err, f, t, e, g, w) earlier, says))
              (λ x w. (omega (arith, h), λ j a b. absurd (omega (arith, a, b)), (waiting n, w))))
          (λ t. (
            omega (arith, h),
            λ j a b. absurd (omega (arith, a, b)),
            give_up-Says n err f (inl t) (omega (arith, h)),
          )))

  allowed_positive : 1 ≤ most
  unfolding allowed
  allowed_positive =
      if_cases (λ m. 1 ≤ m) (attempts == 0) 1 attempts (λ _. omega arith) (λ e. ground arith)

  -- An operation is called at most as often as allowed, and again only after a failure that may pass
  -- and while the context has not ended. Success is that of the last call; a failure is that of the
  -- last call too, and it may not pass, or it is the last one that is allowed; what is said of the
  -- number of attempts is the number of calls.
  pub retry_bounded :
      let (r, calls) = retry_with_timeout operation context attempts in
      (calls ≤ most) × ((k : ℕ) → suc k < calls → IsTransient k) × Says r calls
  unfolding retry_with_timeout
  retry_bounded =
      let (bound, earlier, says) =
        retry_from-IsGood (most - 1) 0 (omega (arith, allowed_positive)) in
      (bound, λ k. earlier k (omega arith), says)
