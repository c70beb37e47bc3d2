-- ===== src/Checkpoint/View.antt =====
-- internal/exporter/service.go: what a checkpoint and its journal hold for a target.
use emby_migrator.Prelude.{
  ◌≡◌, refl, sym, ap, subst, ◌∙◌, Bool, true, false, not, ◌&&◌, ◌||◌, Option, none, some, List, [],
  ◌∷◌, Text, text_eq, All, Bool-cases, inl, inr, if◌then◌else◌, arith,
}
use emby_migrator.Prelude.Strings.{trim_space, is_empty}
use emby_migrator.Plan.Binding.{ImportTarget}
use emby_migrator.Plan.Lookup.{or_else}
use emby_migrator.Checkpoint.Types.{
  Saved, Checkpoint, Kind, item, person_avatar, Entry, Line, entry, malformed, too_long, Journal,
  absent, no_access, lines, Disk,
}
use emby_migrator.Checkpoint.Replay.{
  same_import_target, base_for, replay_entry, replay_lines, replay_import_checkpoint_journal,
  read_file, load_import_checkpoint,
}

-- An avatar's entry, or an item's.
abbrev pub kind_of : Bool → Kind
kind_of true = person_avatar
kind_of false = item

abbrev pub held : Bool → Checkpoint → Text → Option Saved
held true c = c.person_avatars
held false c = c.items

-- What a checkpoint holds for a target: nothing where it is another's.
unfoldable pub view : ImportTarget → Bool → Checkpoint → Text → Option Saved
view target avatar c k = if same_import_target c.target target then held avatar c k else none

-- The entry that a store for the target writes.
abbrev pub made : ImportTarget → Bool → Saved → Entry
made target avatar value = record { target = target; kind = kind_of avatar; checkpoint = value }

abbrev pub is_blank : Saved → Bool
is_blank value = is_empty (trim_space value.stable_key)

-- A line that a store for the target writes, or a part of one.
abbrev pub IsOurs : ImportTarget → Line → Type 0
IsOurs target (entry e) =
    (avatar : Bool) × (value : Saved) × (e ≡ made target avatar value) × (is_blank value ≡ false)
IsOurs target malformed = Unit
IsOurs target too_long = ⊥

abbrev pub is_avatar : Kind → Bool
is_avatar person_avatar = true
is_avatar _ = false

abbrev same_bool : Bool → Bool → Bool
same_bool true b = b
same_bool false b = not b

-- The last entry for a key, of items or of avatars.
unfoldable pub last_entry : Bool → Text → List Line → Option Saved
last_entry avatar k [] = none
last_entry avatar k (entry e ∷ ls) = or_else (last_entry avatar k ls) (
    if same_bool (is_avatar e.kind) avatar && text_eq k e.checkpoint.stable_key
    then some e.checkpoint
    else none)
last_entry avatar k (_ ∷ ls) = last_entry avatar k ls

abbrev pub has_entry : List Line → Bool
has_entry [] = false
has_entry (entry e ∷ ls) = true
has_entry (_ ∷ ls) = has_entry ls

abbrev pub lines_of : Journal → List Line
lines_of (lines ls ended) = ls
lines_of _ = []

abbrev pub is_readable : Journal → Bool
is_readable no_access = false
is_readable _ = true

module _ (target : ImportTarget) (identified : same_import_target target target ≡ true) where
  made-view :
      (made_avatar : Bool) (value : Saved) (s : Checkpoint × Bool) (avatar : Bool) (k : Text)
      → is_blank value ≡ false
      → view target avatar (replay_entry (made target made_avatar value) s).0 k
        ≡ or_else
            (last_entry avatar k (entry (made target made_avatar value) ∷ []))
            (view target avatar s.0 k)
  unfolding view replay_entry base_for last_entry
  made-view true value s true k h = ground (arith, identified)
  made-view true value s false k h = ground (arith, identified)
  made-view false value s true k h = ground (arith, identified)
  made-view false value s false k h = ground (arith, identified)

  made-found :
      (made_avatar : Bool) (value : Saved) (s : Checkpoint × Bool)
      → is_blank value ≡ false
      → ((replay_entry (made target made_avatar value) s).1 ≡ true)
        × ((replay_entry (made target made_avatar value) s).0.target ≡ target)
  unfolding replay_entry base_for
  made-found true value s h = ground arith
  made-found false value s h = ground arith

  last_entry-cons :
      (e : Entry) (ls : List Line) (avatar : Bool) (k : Text) (o : Option Saved)
      → or_else (last_entry avatar k ls) (or_else (last_entry avatar k (entry e ∷ [])) o)
        ≡ or_else (last_entry avatar k (entry e ∷ ls)) o
  unfolding last_entry
  last_entry-cons e ls avatar k o = ground arith

  -- What the replay of a journal of the target's own entries comes to.
  pub record Replayed (ls : List Line) (s r : Checkpoint × Bool) : Type 0 where
    pub done : replay_lines ls s ≡ some r
    pub views :
        (avatar : Bool) (k : Text)
        → view target avatar r.0 k ≡ or_else (last_entry avatar k ls) (view target avatar s.0 k)
    pub found : r.1 ≡ (has_entry ls || s.1)
    pub same : has_entry ls ≡ true → r.0.target ≡ target
    pub unchanged : has_entry ls ≡ false → r ≡ s

  cons-Replayed :
      (made_avatar : Bool) (value : Saved) (ls : List Line) (s r : Checkpoint × Bool)
      → is_blank value ≡ false
      → Replayed ls (replay_entry (made target made_avatar value) s) r
      → Replayed (entry (made target made_avatar value) ∷ ls) s r
  unfolding replay_lines
  cons-Replayed made_avatar value ls s r h p =
      let e = made target made_avatar value in
      let (found, same) = made-found made_avatar value s h in
      record {
        done = p.done;
        views = λ avatar k.
            p.views avatar k
            ∙ ap (or_else (last_entry avatar k ls)) (made-view made_avatar value s avatar k h)
            ∙ last_entry-cons e ls avatar k (view target avatar s.0 k);
        found = ground (arith, p.found, found);
        same = λ _. elim (Bool-cases (has_entry ls)) [
          | inl some_entry ↦ p.same some_entry
          | inr no_entry ↦ ap (λ (q : Checkpoint × Bool). q.0.target) (p.unchanged no_entry) ∙ same
        ];
        unchanged = λ z. absurd (cc);
      }

  -- The replay of a journal of the target's own entries does not fail.
  pub replay_ours :
      (ls : List Line) (s : Checkpoint × Bool)
      → All (IsOurs target) ls
      → (r : Checkpoint × Bool) × Replayed ls s r
  unfolding replay_lines last_entry
  replay_ours [] s h = (
    s,
    record {
      done = refl;
      views = λ avatar k. refl;
      found = refl;
      same = λ z. absurd (cc);
      unchanged = λ z. refl;
    },
  )
  replay_ours (too_long ∷ ls) s h = absurd h.0
  replay_ours (malformed ∷ ls) s h =
      let (r, p) = replay_ours ls s h.1 in
      (
        r,
        record {
          done = p.done;
          views = p.views;
          found = p.found;
          same = p.same;
          unchanged = p.unchanged;
        },
      )
  replay_ours (entry e ∷ ls) s ((avatar, value, same, key), h) =
      let (r, p) = replay_ours ls (replay_entry (made target avatar value) s) h in
      subst (λ e'. (r' : Checkpoint × Bool) × Replayed (entry e' ∷ ls) s r') (sym same)
        (r, cons-Replayed avatar value ls s r key p)

  -- What a load comes to, where the journal has the target's own entries; `present` tells whether there
  -- is a file.
  pub record Loaded (d : Disk) (c : Checkpoint) (present : Bool) (r : Checkpoint × Bool)
      : Type 0 where
    pub done : load_import_checkpoint d ≡ some r
    pub views :
        (avatar : Bool) (k : Text)
        → view target avatar r.0 k
          ≡ or_else (last_entry avatar k (lines_of d.journal)) (view target avatar c k)
    pub found : r.1 ≡ (has_entry (lines_of d.journal) || present)
    pub same : has_entry (lines_of d.journal) ≡ true → r.0.target ≡ target

  journal_lines :
      (j : Journal) (c : Checkpoint)
      → is_readable j ≡ true
      → replay_import_checkpoint_journal j c ≡ replay_lines (lines_of j) (c, false)
  unfolding replay_import_checkpoint_journal replay_lines
  journal_lines absent c h = refl
  journal_lines no_access c h = absurd (cc)
  journal_lines (lines ls ended) c h = refl

  load_replayed :
      (d : Disk) (c : Checkpoint) (present : Bool) (r : Checkpoint × Bool)
      → read_file d.file ≡ some (c, present)
      → replay_import_checkpoint_journal d.journal c ≡ some r
      → load_import_checkpoint d ≡ some (if r.1 then (r.0, true) else (c, present))
  unfolding load_import_checkpoint
  load_replayed d c present r file replayed = rw (file, load_import_checkpoint) (rw replayed refl)

  pub load_ours :
      (d : Disk) (c : Checkpoint) (present : Bool)
      → read_file d.file ≡ some (c, present)
      → is_readable d.journal ≡ true
      → All (IsOurs target) (lines_of d.journal)
      → (r : Checkpoint × Bool) × Loaded d c present r
  load_ours d c present file readable h =
      let (r, p) = replay_ours (lines_of d.journal) (c, false) h in
      let done = load_replayed d c present r file (journal_lines d.journal c readable ∙ p.done) in
      elim (Bool-cases (has_entry (lines_of d.journal))) [
        | inl e ↦ (
          (r.0, true),
          record {
            done = done ∙ ground (arith, p.found);
            views = p.views;
            found = ground arith;
            same = p.same;
          },
        )
        | inr e ↦ (
          (c, present),
          record {
            done = done ∙ ground (arith, p.found);
            views = λ avatar k.
                ap (λ (q : Checkpoint × Bool). view target avatar q.0 k) (sym (p.unchanged e))
                ∙ p.views avatar k;
            found = ground arith;
            same = λ z. absurd (cc);
          },
        )
      ]
