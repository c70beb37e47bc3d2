-- ===== src/Database/Retention.antt =====
-- internal/embydb/embydb.go: which backups `cleanupDatabaseBackups` may remove.
use emby_migrator.Prelude.{
  inl, inr, ℕ, zero, suc, ◌≤◌, ◌+◌, ◌-◌, ◌≡◌, refl, ap, Bool, true, false, not, ◌&&◌, Option, List,
  [], ◌∷◌, Text, text_eq, length, drop, filter, leb, ltb, if_cases, option_cases, if◌then◌else◌,
  All, Bool-cases, arith,
}
use emby_migrator.Database.Backups.{
  DirEntry, Backup, Cleanup, newer_first, by_age, as_backup, old_backups, unreadable, remove_all,
  cleanup_database_backups,
}

abbrev as_new : Backup → Backup → Bool
as_new b c = leb b.timestamp c.timestamp

-- How many of them are at least as new.
abbrev pub newer_count : Backup → List Backup → ℕ
newer_count b bs = length (filter (as_new b) bs)

newer_count_cons :
    (b c : Backup) (cs : List Backup)
    → newer_count b (c ∷ cs) ≡ (if as_new b c then 1 else 0) + newer_count b cs
newer_count_cons b c cs = elim (Bool-cases (as_new b c)) [
  | inl e ↦ rw e (omega arith)
  | inr e ↦ rw e (omega arith)
]

newer_count-newer_first :
    (b c : Backup) (cs : List Backup) → newer_count b (newer_first c cs) ≡ newer_count b (c ∷ cs)
newer_count-newer_first b c [] = refl
newer_count-newer_first b c (d ∷ ds) =
    if_cases (λ l. newer_count b l ≡ newer_count b (c ∷ d ∷ ds)) (ltb c.timestamp d.timestamp) _ _
      (λ _. omega (
        arith,
        newer_count-newer_first b c ds,
        newer_count_cons b d (newer_first c ds),
        newer_count_cons b c ds,
        newer_count_cons b d ds,
        newer_count_cons b c (d ∷ ds),
      ))
      (λ _. refl)

newer_count-by_age : (b : Backup) (bs : List Backup) → newer_count b (by_age bs) ≡ newer_count b bs
newer_count-by_age b [] = refl
newer_count-by_age b (c ∷ cs) = omega (
  arith,
  newer_count-newer_first b c (by_age cs),
  newer_count_cons b c (by_age cs),
  newer_count_cons b c cs,
  newer_count-by_age b cs,
)

abbrev AreOlder : Backup → List Backup → Type 0
AreOlder b cs = All (λ c. c.timestamp ≤ b.timestamp) cs

abbrev IsByAge : List Backup → Type 0
IsByAge [] = Unit
IsByAge (b ∷ bs) = AreOlder b bs × IsByAge bs

AreOlder-weaken :
    (b c : Backup) (bs : List Backup) → b.timestamp ≤ c.timestamp → AreOlder b bs → AreOlder c bs
AreOlder-weaken b c [] h k = tt
AreOlder-weaken b c (d ∷ ds) h k = (omega (arith, h, k.0), AreOlder-weaken b c ds h k.1)

AreOlder-newer_first :
    (b c : Backup) (bs : List Backup)
    → c.timestamp ≤ b.timestamp
    → AreOlder b bs
    → AreOlder b (newer_first c bs)
AreOlder-newer_first b c [] h k = (h, tt)
AreOlder-newer_first b c (d ∷ ds) h k =
    if_cases (AreOlder b) (ltb c.timestamp d.timestamp) _ _
      (λ _. (k.0, AreOlder-newer_first b c ds h k.1)) (λ _. (h, k))

newer_first-IsByAge : (b : Backup) (bs : List Backup) → IsByAge bs → IsByAge (newer_first b bs)
newer_first-IsByAge b [] h = (tt, tt)
newer_first-IsByAge b (c ∷ cs) h =
    if_cases IsByAge (ltb b.timestamp c.timestamp) _ _
      (λ t. (AreOlder-newer_first c b cs (ground (arith, t)) h.0, newer_first-IsByAge b cs h.1))
      (λ t.
        let le : c.timestamp ≤ b.timestamp = ground (arith, t) in
        ((le, AreOlder-weaken c b cs le h.0), h))

by_age-IsByAge : (bs : List Backup) → IsByAge (by_age bs)
by_age-IsByAge [] = tt
by_age-IsByAge (b ∷ bs) = newer_first-IsByAge b (by_age bs) (by_age-IsByAge bs)

module _ (P : Backup → Type 0) where
  All-drop : (k : ℕ) (bs : List Backup) → All P bs → All P (drop k bs)
  All-drop zero bs h = h
  All-drop (suc k) [] h = tt
  All-drop (suc k) (b ∷ bs) h = All-drop k bs h.1

  All-newer_first : (b : Backup) (bs : List Backup) → P b → All P bs → All P (newer_first b bs)
  All-newer_first b [] h k = (h, tt)
  All-newer_first b (c ∷ cs) h k =
      if_cases (All P) (ltb b.timestamp c.timestamp) _ _ (λ _. (k.0, All-newer_first b cs h k.1))
        (λ _. (h, k))

  All-by_age : (bs : List Backup) → All P bs → All P (by_age bs)
  All-by_age [] h = tt
  All-by_age (b ∷ bs) h = All-newer_first b (by_age bs) h.0 (All-by_age bs h.1)

-- So many at least are as new, itself among them.
abbrev HasNewer : ℕ → List Backup → Backup → Type 0
HasNewer k bs b = k ≤ newer_count b bs

older-HasNewer :
    (k : ℕ) (b : Backup) (bs cs : List Backup)
    → AreOlder b cs
    → All (HasNewer k bs) cs
    → All (HasNewer (suc k) (b ∷ bs)) cs
older-HasNewer k b bs [] old h = tt
older-HasNewer k b bs (c ∷ cs) old h =
    let e : as_new c b ≡ true = ground (arith, old.0) in
    (rw e (omega (arith, h.0)), older-HasNewer k b bs cs old.1 h.1)

self-HasNewer : (b : Backup) (bs : List Backup) → HasNewer 1 (b ∷ bs) b
self-HasNewer b bs = let e : as_new b b ≡ true = ground arith in rw e (omega arith)

more-HasNewer :
    (b : Backup) (bs cs : List Backup) → All (HasNewer 1 bs) cs → All (HasNewer 1 (b ∷ bs)) cs
more-HasNewer b bs [] h = tt
more-HasNewer b bs (c ∷ cs) h =
    (omega (arith, h.0, newer_count_cons c b bs), more-HasNewer b bs cs h.1)

each-HasNewer : (bs : List Backup) → All (HasNewer 1 bs) bs
each-HasNewer [] = tt
each-HasNewer (b ∷ bs) = (self-HasNewer b bs, more-HasNewer b bs bs (each-HasNewer bs))

drop-HasNewer : (k : ℕ) (bs : List Backup) → IsByAge bs → All (HasNewer (suc k) bs) (drop k bs)
drop-HasNewer zero bs h = each-HasNewer bs
drop-HasNewer (suc k) [] h = tt
drop-HasNewer (suc k) (b ∷ bs) h =
    older-HasNewer (suc k) b bs (drop k bs) (All-drop (λ c. c.timestamp ≤ b.timestamp) k bs h.0)
      (drop-HasNewer k bs h.1)

module _ (parse : Text → Option ℕ) (remove : Text → Bool) (directory base current : Text) where
  remove_all-All :
      (P : Backup → Type 0) (warnings : ℕ) (bs : List Backup)
      → All P bs
      → let c = remove_all parse remove directory base current warnings bs in
        All P c.removed × (c.pruned ≡ length c.removed)
  unfolding remove_all
  remove_all-All P warnings [] h = (tt, refl)
  remove_all-All P warnings (b ∷ bs) h =
      let (all, count) = remove_all-All P warnings bs h.1 in
      if_cases (λ (c : Cleanup). All P c.removed × (c.pruned ≡ length c.removed)) (remove b.path) _
        _ (λ _. ((h.0, all), ap suc count)) (λ _. (all, count))

  -- What may be removed: not the current backup, and only what enough others are as new as.
  abbrev pub IsSuperfluous : ℕ → List DirEntry → Backup → Type 0
  IsSuperfluous keep entries b =
      (text_eq b.path current ≡ false)
      × (keep ≤ newer_count b (old_backups parse remove directory base current entries))

  old_backups-other :
      (entries : List DirEntry)
      → All
          (λ b. text_eq b.path current ≡ false)
          (old_backups parse remove directory base current entries)
  unfolding old_backups
  old_backups-other [] = tt
  old_backups-other (e ∷ entries) =
      let rest = old_backups-other entries in
      let Goal : List Backup → Type 0 = All (λ b. text_eq b.path current ≡ false) in
      option_cases Goal (as_backup parse remove directory base current e) _ _ (λ _. rest)
        (λ b _.
          option_cases Goal e.is_regular _ _ (λ _. rest)
            (λ regular _.
              if_cases Goal (regular && not (text_eq b.path current)) _ _
                (λ t. (ground (arith, t), rest)) (λ _. rest)))

  each-IsSuperfluous :
      (keep k : ℕ) (entries : List DirEntry) (bs : List Backup)
      → keep ≤ suc k
      → All (λ b. text_eq b.path current ≡ false) bs
      → All (HasNewer (suc k) (by_age (old_backups parse remove directory base current entries))) bs
      → All (IsSuperfluous keep entries) bs
  each-IsSuperfluous keep k entries [] le h n = tt
  each-IsSuperfluous keep k entries (b ∷ bs) le h n =
      let all = old_backups parse remove directory base current entries in
      (
        (h.0, omega (arith, le, n.0, newer_count-by_age b all)),
        each-IsSuperfluous keep k entries bs le h.1 n.1,
      )

  -- The cleanup removes neither the current backup nor one of the newest: of every backup that it removes
  -- at least as many old ones as are to be kept are as new, itself among them. It reports how many it
  -- removes.
  pub cleanup_database_backups-IsSuperfluous :
      (keep : ℕ) (entries : List DirEntry)
      → let c = cleanup_database_backups parse remove directory base current keep entries in
        All (IsSuperfluous keep entries) c.removed × (c.pruned ≡ length c.removed)
  unfolding cleanup_database_backups
  cleanup_database_backups-IsSuperfluous keep entries =
      let all = old_backups parse remove directory base current entries in
      let places = if ltb keep 1 then 1 else keep in
      let other : Backup → Type 0 = λ b. text_eq b.path current ≡ false in
      let enough : keep ≤ suc (places - 1) =
        if_cases (λ p. keep ≤ suc (p - 1)) (ltb keep 1) _ _ (λ t. ground (arith, t))
          (λ t. ground (arith, t)) in
      remove_all-All (IsSuperfluous keep entries)
        (unreadable parse remove directory base current entries) (drop (places - 1) (by_age all))
        (each-IsSuperfluous keep (places - 1) entries (drop (places - 1) (by_age all)) enough
          (All-drop other (places - 1) (by_age all)
            (All-by_age other all (old_backups-other entries)))
          (drop-HasNewer (places - 1) (by_age all) (by_age-IsByAge all)))
