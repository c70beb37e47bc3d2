-- ===== src/Job/Logs.antt =====
-- The memory log of a job (internal/job/job.go): its size, and what of the entries it holds.
use emby_migrator.Prelude.{
  ℕ, ◌+◌, ◌*◌, ◌≤◌, ◌<◌, ◌≡◌, ◌⊎◌, sym, ap, ◌∙◌, List, [], ◌∷◌, ◌++◌, append_assoc, length,
  if◌then◌else◌, Text,
}
use emby_migrator.Job.Types.{is_terminal_status, Level, info, warn, error, LogEntry, Job}
use emby_migrator.Job.Ops
use emby_migrator.Job.Run.{Op, apply}

-- `xs` ends `ys`.
abbrev pub IsSuffix : {A : Type 0} → List A → List A → Type 0
IsSuffix {A} xs ys = (pre : List A) × (pre ++ xs ≡ ys)

-- A log within its bounds: at most the limit, or less than twice the limit and less than a hundred
-- over it.
abbrev pub IsBounded : ℕ → List LogEntry → Type 0
IsBounded limit logs =
    0 < limit → (length logs ≤ limit) ⊎ ((length logs < limit * 2) × (length logs < limit + 100))

append-IsSuffix : {A : Type 0} (xs ys zs : List A) → IsSuffix xs ys → IsSuffix (xs ++ zs) (ys ++ zs)
append-IsSuffix xs ys zs (pre, e) = (pre, sym (append_assoc pre xs zs) ∙ ap (λ l. l ++ zs) e)

IsSuffix-trans : {A : Type 0} (xs ys zs : List A) → IsSuffix xs ys → IsSuffix ys zs → IsSuffix xs zs
IsSuffix-trans xs ys zs (pre, e) (before, f) =
    (before ++ pre, append_assoc before pre xs ∙ ap (λ l. before ++ l) e ∙ f)

-- What a call has to say, if it changes the state or is a call of `Log`.
abbrev says : ℕ → Level → Text → List LogEntry
says now level text = record { time = now; level = level; message = text } ∷ []

abbrev unless_ended : {R : Type 0} → Job R → List LogEntry → List LogEntry
unless_ended j es = if is_terminal_status j.status then [] else es

abbrev pub published : {R : Type 0} → Op R → Job R → List LogEntry
published (Op.log now level text) j = says now level text
published (Op.complete now r) j = unless_ended j (says now info Ops.completed_message)
published (Op.fail now e) j = unless_ended j (says now error e)
published (Op.fail_with_result now e r) j = unless_ended j (says now error e)
published (Op.stop now) j = unless_ended j (says now warn Ops.stopped_message)
published (Op.pause now) j =
    if Ops.is_running j.status then says now warn Ops.paused_message else []
published (Op.resume now) j =
    if Ops.is_paused j.status then says now info Ops.resumed_message else []
published _ j = []

-- All that the calls have to say, in their order.
abbrev pub history : {R : Type 0} → List (Op R) → Job R → List LogEntry
history [] j = []
history (op ∷ ops) j = published op j ++ history ops (apply op j)

module _ {R : Type 0} where
  -- The memory log is bounded, and it is the tail of what was said before.
  pub record IsLogged (said : List LogEntry) (j : Job R) : Type 0 where
    pub bounded : IsBounded j.max_memory_log_entries j.logs
    pub tail : IsSuffix j.logs said
