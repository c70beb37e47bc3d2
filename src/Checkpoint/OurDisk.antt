-- ===== src/Checkpoint/OurDisk.antt =====
-- internal/exporter/service.go: a disk whose journal has only one target's lines, and one line more.
use emby_migrator.Prelude.{
  ◌≡◌, refl, sym, ap, subst, ◌∙◌, Bool, true, false, Option, none, some, List, [], ◌∷◌, ◌++◌, Text,
  All, All-append, if◌then◌else◌, arith,
}
use emby_migrator.Plan.Binding.{ImportTarget}
use emby_migrator.Plan.Lookup.{or_else, or_else-none}
use emby_migrator.Checkpoint.Types.{
  Saved, Checkpoint, Entry, Line, entry, malformed, too_long, holds, Journal, absent, no_access,
  lines, Disk,
}
use emby_migrator.Checkpoint.Replay.{same_import_target, read_file}
use emby_migrator.Checkpoint.Store.{
  Written, whole, nothing, piece, all_but_end, write_line, write_entry,
}
use emby_migrator.Checkpoint.View.{
  view, made, is_blank, IsOurs, last_entry, lines_of, is_readable, Loaded,
}
use emby_migrator.Checkpoint.History.{Done, add, is_entry}

-- Whether what is written next begins a line.
abbrev pub is_ended : Journal → Bool
is_ended (lines [] ended) = true
is_ended (lines (l ∷ ls) ended) = ended
is_ended _ = false

module _ (target : ImportTarget) (identified : same_import_target target target ≡ true) where
  -- The disk: a file, a journal of our own lines, and what they mean.
  pub record IsOurDisk (d : Disk) (done : Done) : Type 0 where
    pub base : Checkpoint
    pub present : Bool
    pub file : read_file d.file ≡ some (base, present)
    pub readable : is_readable d.journal ≡ true
    pub ours : All (IsOurs target) (lines_of d.journal)
    pub means :
        (avatar : Bool) (k : Text)
        → done avatar k
          ≡ or_else (last_entry avatar k (lines_of d.journal)) (view target avatar base k)

  pub appended :
      (j : Journal) (e : Entry)
      → is_ended j ≡ true
      → (write_entry e whole j ≡ lines (lines_of j ++ entry e ∷ []) true)
        × (write_entry e nothing j ≡ j)
        × (write_entry e piece j ≡ lines (lines_of j ++ malformed ∷ []) false)
        × (write_entry e all_but_end j ≡ lines (lines_of j ++ entry e ∷ []) false)
  unfolding write_entry write_line
  appended (lines [] ended) e h = (refl, refl, refl, refl)
  appended (lines (l ∷ ls) true) e h = (refl, refl, refl, refl)
  appended (lines (l ∷ ls) false) e h = absurd (cc)
  appended absent e h = absurd (cc)
  appended no_access e h = absurd (cc)

  -- What the lines of a journal mean after one more.
  pub last_entry-append :
      (avatar b : Bool) (k : Text) (v : Saved) (ls : List Line)
      → last_entry b k (ls ++ entry (made target avatar v) ∷ [])
        ≡ or_else (last_entry b k (entry (made target avatar v) ∷ [])) (last_entry b k ls)
  unfolding last_entry
  last_entry-append avatar b k v [] = sym (or_else-none _)
  last_entry-append avatar b k v (entry e ∷ ls) = ground (arith, last_entry-append avatar b k v ls)
  last_entry-append avatar b k v (malformed ∷ ls) = last_entry-append avatar b k v ls
  last_entry-append avatar b k v (too_long ∷ ls) = last_entry-append avatar b k v ls

  pub last_entry-snoc :
      (avatar b : Bool) (k : Text) (v : Saved) (ls : List Line) (o : Option Saved) (done : Done)
      → is_blank v ≡ false
      → done b k ≡ or_else (last_entry b k ls) o
      → add avatar v done b k ≡ or_else (last_entry b k (ls ++ entry (made target avatar v) ∷ [])) o
  unfolding last_entry
  last_entry-snoc true true k v ls o done key h = ground (arith, last_entry-append true true k v ls)
  last_entry-snoc true false k v ls o done key h =
      ground (arith, last_entry-append true false k v ls)
  last_entry-snoc false true k v ls o done key h =
      ground (arith, last_entry-append false true k v ls)
  last_entry-snoc false false k v ls o done key h =
      ground (arith, last_entry-append false false k v ls)

  pub last_entry-malformed :
      (b : Bool) (k : Text) (ls : List Line)
      → last_entry b k (ls ++ malformed ∷ []) ≡ last_entry b k ls
  unfolding last_entry
  last_entry-malformed b k [] = refl
  last_entry-malformed b k (entry e ∷ ls) = rw (last_entry-malformed b k ls) refl
  last_entry-malformed b k (malformed ∷ ls) = last_entry-malformed b k ls
  last_entry-malformed b k (too_long ∷ ls) = last_entry-malformed b k ls

  -- A disk whose journal has one line more.
  pub with_entry-IsOurDisk :
      (avatar ended : Bool) (v : Saved) (d : Disk) (ls : List Line) (done : Done)
      → is_blank v ≡ false
      → ls ≡ lines_of d.journal
      → IsOurDisk d done
      → IsOurDisk
          (record d { journal = lines (ls ++ entry (made target avatar v) ∷ []) ended })
          (add avatar v done)
  with_entry-IsOurDisk avatar ended v d ls done key same h = record {
    base = h.base;
    present = h.present;
    file = h.file;
    readable = refl;
    ours =
        All-append (IsOurs target) ls (entry (made target avatar v) ∷ [])
          (subst (All (IsOurs target)) (sym same) h.ours) ((avatar, v, refl, key), tt);
    means = λ b k. last_entry-snoc avatar b k v ls (view target b h.base k) done key (
        subst (λ ms. done b k ≡ or_else (last_entry b k ms) (view target b h.base k)) (sym same)
          (h.means b k));
  }

  pub with_piece-IsOurDisk :
      (d : Disk) (ls : List Line) (done : Done)
      → ls ≡ lines_of d.journal
      → IsOurDisk d done
      → IsOurDisk (record d { journal = lines (ls ++ malformed ∷ []) false }) done
  with_piece-IsOurDisk d ls done same h = record {
    base = h.base;
    present = h.present;
    file = h.file;
    readable = refl;
    ours =
        All-append (IsOurs target) ls (malformed ∷ [])
          (subst (All (IsOurs target)) (sym same) h.ours) (tt, tt);
    means = λ b k.
        h.means b k
        ∙ ap (λ ms. or_else (last_entry b k ms) (view target b h.base k)) (sym same)
        ∙ ap (λ o. or_else o (view target b h.base k)) (sym (last_entry-malformed b k ls));
  }

  pub same_lines-IsOurDisk :
      (d : Disk) (j : Journal) (done : Done)
      → lines_of j ≡ lines_of d.journal
      → is_readable j ≡ true
      → IsOurDisk d done
      → IsOurDisk (record d { journal = j }) done
  same_lines-IsOurDisk d j done same readable h = record {
    base = h.base;
    present = h.present;
    file = h.file;
    readable = readable;
    ours = subst (All (IsOurs target)) (sym same) h.ours;
    means = λ b k.
        h.means b k ∙ ap (λ ms. or_else (last_entry b k ms) (view target b h.base k)) (sym same);
  }

  -- The disk after a write, whole or in part, to an ended journal.
  pub write_entry-IsOurDisk :
      (avatar : Bool) (v : Saved) (w : Written) (d : Disk) (j : Journal) (done : Done)
      → is_blank v ≡ false
      → is_ended j ≡ true
      → is_readable j ≡ true
      → lines_of j ≡ lines_of d.journal
      → IsOurDisk d done
      → IsOurDisk
          (record d { journal = write_entry (made target avatar v) w j })
          (if is_entry w then add avatar v done else done)
  write_entry-IsOurDisk avatar v whole d j done key ended readable same h =
      subst (λ j'. IsOurDisk (record d { journal = j' }) (add avatar v done))
        (sym (appended j (made target avatar v) ended).0)
        (with_entry-IsOurDisk avatar true v d (lines_of j) done key same h)
  write_entry-IsOurDisk avatar v nothing d j done key ended readable same h =
      subst (λ j'. IsOurDisk (record d { journal = j' }) done)
        (sym (appended j (made target avatar v) ended).1)
        (same_lines-IsOurDisk d j done same readable h)
  write_entry-IsOurDisk avatar v piece d j done key ended readable same h =
      subst (λ j'. IsOurDisk (record d { journal = j' }) done)
        (sym (appended j (made target avatar v) ended).2)
        (with_piece-IsOurDisk d (lines_of j) done same h)
  write_entry-IsOurDisk avatar v all_but_end d j done key ended readable same h =
      subst (λ j'. IsOurDisk (record d { journal = j' }) (add avatar v done))
        (sym (appended j (made target avatar v) ended).3)
        (with_entry-IsOurDisk avatar false v d (lines_of j) done key same h)

  pub or_else_again : (o p : Option Saved) → or_else o (or_else o p) ≡ or_else o p
  or_else_again none p = refl
  or_else_again (some v) p = refl

  pub folded-IsOurDisk :
      (remove_ok : Bool) (d : Disk) (done : Done) (r : Checkpoint × Bool) (k : IsOurDisk d done)
      → Loaded target identified d k.base k.present r
      → IsOurDisk
          (if remove_ok
            then record { file = holds r.0; journal = absent }
            else record d { file = holds r.0 })
          done
  unfolding read_file last_entry
  folded-IsOurDisk true d done r k p = record {
    base = r.0;
    present = true;
    file = refl;
    readable = refl;
    ours = tt;
    means = λ b j. k.means b j ∙ sym (p.views b j);
  }
  folded-IsOurDisk false d done r k p = record {
    base = r.0;
    present = true;
    file = refl;
    readable = k.readable;
    ours = k.ours;
    means = λ b j.
        k.means b j
        ∙ sym (or_else_again (last_entry b j (lines_of d.journal)) (view target b k.base j))
        ∙ ap (or_else (last_entry b j (lines_of d.journal))) (sym (p.views b j));
  }
