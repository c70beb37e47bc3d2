-- ===== src/Examples/Databases.antt =====
-- A plan of one film, which is written into a database that has it without streams, and another film.
use emby_migrator.Database.Backups.{DirEntry, cleanup_database_backups}
use emby_migrator.Database.Retention.{IsSuperfluous, cleanup_database_backups-IsSuperfluous}
use emby_migrator.Prelude.{◌++◌, ◌-◌, length, map}
use emby_migrator.Prelude.{
  ℕ, ◌≡◌, refl, Bool, true, false, Option, none, some, List, [], ◌∷◌, map, Text, codes, text_eq,
  contains, leb, ◌&&◌, ◌+◌, if◌then◌else◌, ◌==◌,
}
use emby_migrator.Prelude.Int.{pos}
use emby_migrator.Prelude.Result.{refused, ok, and_then, unless, need, ◌>>=◌}
use emby_migrator.Prelude.Strings.{trim_space, equal_fold}
use emby_migrator.Prelude.Decimal.{itoa}
use emby_migrator.Database.Fit.{IsFit, used_tables, validate_schema-IsFit}
use emby_migrator.Database.Types.{AreOfColumns, planned-AreOfColumns}
use emby_migrator.Database.Rows.{stream_insert_columns, chapter_columns, stream_row, chapter_row}
use emby_migrator.Database.Schema.{validate_schema}
use emby_migrator.Prelude.{All}
use emby_migrator.Plan.Binding.{Tables}
use emby_migrator.Database.Values.{fold_keys, Numbers, Value, null, boolean, integer, text}
use emby_migrator.Database.Tables.{Keep, ItemRow, Row, Db}
use emby_migrator.Database.Item.{ItemPatch}
use emby_migrator.Database.Schema.{TableInfo, TableRule, media_schema}
use emby_migrator.Database.Apply.{ApplyOptions, binding_mismatch, Engine, Counts, no_counts, apply}
use emby_migrator.Database.Whole.{IsPromised, apply-IsPromised}
use emby_migrator.Database.Again.{keeping, skip, apply-again}

abbrev n : Numbers
n = record {
  Float = ℕ;
  Nested = Unit;
  truncate = pos;
  from_int = λ i. 0;
  float_eq = λ a b. a == b;
  deep_equal = λ a b. true;
}

-- Every column keeps what is written.
abbrev keep : Keep n
keep column value = some value

abbrev latin : ℕ → Bool
latin c = leb b'a' c && leb c b'z'

abbrev tables : Tables
tables = record {
  sha256_hex = λ t. t;
  lower = λ c. if leb b'A' c && leb c b'Z' then c + 32 else c;
  is_letter = latin;
  is_digit = λ c. leb b'0' c && leb c b'9';
}

-- The tables with the columns that they must have, the key first.
abbrev table_of : List TableRule → Text → Option TableInfo
table_of [] name = none
table_of (rule ∷ rules) name =
    let rest = table_of rules name in
    if text_eq rule.name name
    then some (record {
      columns = map (λ c. (c, 0)) rule.must_have;
      indexes =
          some (record { is_unique = true; is_partial = false; columns = some rule.key } ∷ []);
    })
    else rest

abbrev engine : Engine
engine = record {
  declared_series = [];
  is_regular = true;
  begins = true;
  inspect = table_of media_schema;
  reads = true;
  releases = true;
  backs_up = true;
  begins_again = true;
  prepares = true;
  fails = λ p s. false;
  is_intact = true;
  commits = true;
}

abbrev item_row : ℕ → Text → ItemRow n
item_row id name = record {
  id = id;
  name = some name;
  run_time_ticks = null;
  total_bitrate = null;
  width = null;
  height = null;
  size = null;
  container = null;
}

abbrev other_stream : Row n
other_stream = record { item_id = 8; index = pos 0; cells = integer (pos 8) ∷ [] }

abbrev before : Db n
before = record {
  items = item_row 7 (codes "Film") ∷ item_row 8 (codes "Other") ∷ [];
  streams = other_stream ∷ [];
  chapters = [];
}

abbrev film : ItemPatch n
film = record {
  target_item_id = 7;
  target_name = codes "film";
  media_source = (codes "Container", text (codes "mkv")) ∷ [];
  media_streams =
      ((codes "Type", text (codes "Video"))
        ∷ (codes "Width", integer (pos 1920))
        ∷ (codes "IsDefault", boolean true)
        ∷ [])
      ∷ [];
  chapters = [];
}

abbrev video : List (Text × Value n)
video = (codes "type", text (codes "Video")) ∷ (codes "isdefault", text (codes "yes")) ∷ []

abbrev options : ApplyOptions n
options = record {
  source_version = codes "4.9.5.0";
  target_version = codes "4.9.5.1";
  target_server_id = codes "s1";
  target_binding_digest = [];
  target_anchor_count = 0;
  expected_schema_identity = [];
  patches = film ∷ [];
  overwrite = false;
}

abbrev one : Counts
one = record { items_applied = 1; items_skipped = 0; streams_written = 1; chapters_written = 0 }

one_is_applied : (apply keep tables engine options before before before).answer ≡ ok one
unfolding apply text_eq contains and_then unless need ◌>>=◌ trim_space equal_fold itoa
    emby_migrator.Plan.Binding.build_target_binding_digest emby_migrator.Plan.Binding.canonical
    emby_migrator.Plan.Binding.portable_target_name
    emby_migrator.Plan.Binding.equivalent_target_name emby_migrator.Plan.Binding.joined
one_is_applied = refl

-- Another name in the database than in the plan.
renamed_is_refused :
    (apply keep tables engine options
      (record before { items = item_row 7 (codes "Series") ∷ [] })
      before
      before).answer
    ≡ refused binding_mismatch
unfolding apply text_eq contains and_then unless need ◌>>=◌ trim_space equal_fold itoa
    emby_migrator.Plan.Binding.build_target_binding_digest emby_migrator.Plan.Binding.canonical
    emby_migrator.Plan.Binding.portable_target_name
    emby_migrator.Plan.Binding.equivalent_target_name emby_migrator.Plan.Binding.joined
renamed_is_refused = refl

apply-IsPromised_example :
    IsPromised keep tables engine options before before before
      (apply keep tables engine options before before before)
apply-IsPromised_example = apply-IsPromised keep tables engine options before before before

apply-again_example :
    let written = (apply keep tables engine options before before before).database in
    apply keep tables engine (keeping options) written written written
    ≡ record { answer = ok (skip 1 no_counts); database = written; backup = some written }
apply-again_example = apply-again keep tables engine options before one one_is_applied

planned-AreOfColumns_example :
    ((row : Row n)
      → stream_row n 7 0 video ≡ some row
      → AreOfColumns 7 row.index video stream_insert_columns row.cells)
    × AreOfColumns 7
        (chapter_row n 7 0 video).index
        (fold_keys n video)
        chapter_columns
        (chapter_row n 7 0 video).cells
planned-AreOfColumns_example = planned-AreOfColumns n 7 0 video

abbrev identity : Text
identity = elim (validate_schema engine.inspect tables) [ none ↦ [] | some t ↦ t ]

is_known : validate_schema (table_of media_schema) tables ≡ some identity
unfolding validate_schema text_eq contains trim_space equal_fold
is_known = refl

validate_schema-IsFit_example :
    All (IsFit (table_of media_schema)) media_schema
    × All (IsFit (table_of media_schema)) used_tables
validate_schema-IsFit_example =
    validate_schema-IsFit (table_of media_schema) tables identity is_known

-- Three old backups, of which the time is the first digit of its text.
abbrev first_digit : Text → Option ℕ
first_digit [] = none
first_digit (c ∷ t) = some (c - b'0')

abbrev backup_file : Text → DirEntry
backup_file stamp = record {
  name = codes "l.db.emby-migrator-" ++ stamp ++ codes ".bak";
  is_symlink = false;
  is_regular = some true;
}

abbrev files : List DirEntry
files =
    backup_file (codes "3")
    ∷ backup_file (codes "1")
    ∷ backup_file (codes "4")
    ∷ backup_file (codes "2")
    ∷ []

abbrev current : Text
current = codes "/d/l.db.emby-migrator-4.bak"

two_are_removed :
    map
      (λ b. b.timestamp)
      (cleanup_database_backups first_digit
        (λ path. true)
        (codes "/d")
        (codes "l.db")
        current
        2
        files).removed
    ≡ 2 ∷ 1 ∷ []
unfolding cleanup_database_backups text_eq emby_migrator.Prelude.Paths.clean
    emby_migrator.Prelude.Strings.split
two_are_removed = refl

cleanup_database_backups-IsSuperfluous_example :
    let c =
      cleanup_database_backups first_digit
        (λ path. true)
        (codes "/d")
        (codes "l.db")
        current
        2
        files in
    All
      (IsSuperfluous first_digit (λ path. true) (codes "/d") (codes "l.db") current 2 files)
      c.removed
    × (c.pruned ≡ length c.removed)
cleanup_database_backups-IsSuperfluous_example =
    cleanup_database_backups-IsSuperfluous first_digit (λ path. true) (codes "/d") (codes "l.db")
      current 2 files
