-- ===== src/Import/Retry.antt =====
-- internal/exporter/service.go: `retryWithTimeout`. What each call of the operation answers, and whether
-- the context has ended at each moment where it is asked, are arguments; how long is waited is not told.
use emby_migrator.Prelude.{
  ℕ, zero, suc, ◌-◌, Bool, true, false, ◌&&◌, ◌||◌, Option, none, some, List, [], ◌∷◌, Text, codes,
  if◌then◌else◌, leb, ◌==◌,
}
use emby_migrator.Prelude.Strings.{to_lower, has_prefix}

-- An error: its text, and what `errors.Is` says of it.
pub record Failure : Type 0 where
  pub text : Text
  pub is_canceled : Bool
  pub is_deadline_exceeded : Bool

-- `strings.Contains`
unfoldable pub has_part : Text → Text → Bool
unfolding has_prefix
has_part [] part = has_prefix [] part
has_part (c ∷ s) part = has_prefix (c ∷ s) part || has_part s part

unfoldable pub has_any : List Text → Text → Bool
unfolding has_part
has_any [] text = false
has_any (marker ∷ markers) text = has_part text marker || has_any markers text

abbrev transient_markers : List Text
transient_markers =
    codes "timeout"
    ∷ codes "deadline exceeded"
    ∷ codes "use of closed network connection"
    ∷ codes "server closed idle connection"
    ∷ codes "connection reset"
    ∷ codes "connection refused"
    ∷ codes "unexpected eof"
    ∷ codes "tls handshake timeout"
    ∷ codes "i/o timeout"
    ∷ []

abbrev transient_codes : List Text
transient_codes =
    codes "http 429"
    ∷ codes "http 500"
    ∷ codes "http 502"
    ∷ codes "http 503"
    ∷ codes "http 504"
    ∷ []

unfoldable pub is_transient_import_error : Failure → Bool
unfolding has_any to_lower
is_transient_import_error err =
    let text = to_lower err.text in
    if err.is_canceled
    then false
    else if err.is_deadline_exceeded
    then true
    else has_any transient_markers text || has_any transient_codes text

-- When the context is asked: before an attempt, after it has failed, and while waiting for the next.
-- The first attempt has the number 0.
pub data Moment : Type 0 where
  before after waiting : ℕ → Moment

pub data Retried : Type 0 where
  succeeded : Retried
  context_ended failed : Failure → Retried
  failed_after : ℕ → Failure → Retried

module _ (operation : ℕ → Option Failure) (context : Moment → Option Failure) (attempts : ℕ) where
  -- How often at most.
  unfoldable pub allowed : ℕ
  allowed = if attempts == 0 then 1 else attempts

  -- The end, after the loop.
  unfoldable pub give_up : Failure → Retried
  unfolding allowed is_transient_import_error
  give_up err =
      if leb 2 allowed && is_transient_import_error err
      then failed_after allowed err
      else failed err

  -- One round of the loop, with the number of calls; `next` is what follows a failure.
  unfoldable pub attempt : ℕ → (Failure → Retried × ℕ) → Retried × ℕ
  attempt n next = elim (context (before n)) [
    | some e ↦ (context_ended e, n)
    | none ↦ elim (operation n) [
      | none ↦ (succeeded, suc n)
      | some err ↦ elim (context (after n)) [ some e ↦ (context_ended e, suc n) | none ↦ next err ]
    ]
  ]

  -- With so many attempts left after this one.
  unfoldable pub retry_from : ℕ → ℕ → Retried × ℕ
  unfolding give_up attempt
  retry_from zero n = attempt n (λ err. (give_up err, suc n))
  retry_from (suc left) n =
      let rest = retry_from left (suc n) in
      attempt n (λ err.
        if is_transient_import_error err
        then elim (context (waiting n)) [ some e ↦ (context_ended e, suc n) | none ↦ rest ]
        else (give_up err, suc n))

  unfoldable pub retry_with_timeout : Retried × ℕ
  unfolding retry_from allowed
  retry_with_timeout = retry_from (allowed - 1) 0
