-- ===== src/Database/Schema.antt =====
-- internal/embydb/identity.go and the versions of embydb.go: whether a database is one that can be
-- written. What the pragmas of SQLite answer is an argument.
use emby_migrator.Prelude.{
  ℕ, Bool, true, false, not, ◌&&◌, Option, none, some, List, [], ◌∷◌, ◌++◌, map, filter, Text,
  codes, text_eq, contains, take, ltb, if◌then◌else◌, ◌==◌,
}
use emby_migrator.Prelude.Strings.{trim_space, to_lower, equal_fold, is_empty, split}
use emby_migrator.Plan.Binding.{Tables, sorted}

-- An index; its columns are missing where they cannot be read.
pub record Index : Type 0 where
  pub is_unique : Bool
  pub is_partial : Bool
  pub columns : Option (List Text)

-- What `table_info` shows of a table, each column with its position in the primary key, 0 where it is in
-- none; and its indexes.
pub record TableInfo : Type 0 where
  pub columns : List (Text × ℕ)
  pub indexes : Option (List Index)

abbrev pub item_columns : List Text
item_columns =
    codes "Id"
    ∷ codes "Name"
    ∷ codes "RunTimeTicks"
    ∷ codes "TotalBitrate"
    ∷ codes "Width"
    ∷ codes "Height"
    ∷ codes "Size"
    ∷ codes "Container"
    ∷ []

abbrev pub stream_schema_columns : List Text
stream_schema_columns =
    codes "ItemId"
    ∷ codes "StreamIndex"
    ∷ codes "StreamType"
    ∷ codes "Codec"
    ∷ codes "Language"
    ∷ codes "ChannelLayout"
    ∷ codes "Profile"
    ∷ codes "AspectRatio"
    ∷ codes "Path"
    ∷ codes "IsInterlaced"
    ∷ codes "BitRate"
    ∷ codes "Channels"
    ∷ codes "SampleRate"
    ∷ codes "IsDefault"
    ∷ codes "IsForced"
    ∷ codes "IsHearingImpaired"
    ∷ codes "IsExternal"
    ∷ codes "Height"
    ∷ codes "Width"
    ∷ codes "AverageFrameRate"
    ∷ codes "RealFrameRate"
    ∷ codes "Level"
    ∷ codes "PixelFormat"
    ∷ codes "BitDepth"
    ∷ codes "IsAnamorphic"
    ∷ codes "RefFrames"
    ∷ codes "Rotation"
    ∷ codes "CodecTag"
    ∷ codes "Comment"
    ∷ codes "NalLengthSize"
    ∷ codes "Title"
    ∷ codes "TimeBase"
    ∷ codes "ColorPrimaries"
    ∷ codes "ColorSpace"
    ∷ codes "ColorTransfer"
    ∷ codes "Extradata"
    ∷ codes "AttachmentSize"
    ∷ codes "MimeType"
    ∷ codes "ExtendedVideoType"
    ∷ codes "ExtendedVideoSubtype"
    ∷ []

abbrev pub chapter_schema_columns : List Text
chapter_schema_columns =
    codes "ItemId"
    ∷ codes "ChapterIndex"
    ∷ codes "StartPositionTicks"
    ∷ codes "Name"
    ∷ codes "ImagePath"
    ∷ codes "ImageDateModified"
    ∷ codes "MarkerType"
    ∷ []

-- A table: its name, the columns it must have, and its unique key.
pub record TableRule : Type 0 where
  pub name : Text
  pub must_have : List Text
  pub key : List Text

-- In the order of their names.
abbrev pub media_schema : List TableRule
media_schema =
    record {
      name = codes "Chapters3";
      must_have = chapter_schema_columns;
      key = codes "ItemId" ∷ codes "ChapterIndex" ∷ [];
    }
    ∷ record { name = codes "MediaItems"; must_have = item_columns; key = codes "Id" ∷ [] }
    ∷ record {
      name = codes "MediaStreams2";
      must_have = stream_schema_columns;
      key = codes "ItemId" ∷ codes "StreamIndex" ∷ [];
    }
    ∷ []

abbrev pub lower_names : TableInfo → List Text
lower_names info = map (λ c. to_lower c.0) info.columns

unfoldable pub has_all : List Text → List Text → Bool
unfolding to_lower
has_all [] found = true
has_all (column ∷ columns) found = contains found (to_lower column) && has_all columns found

abbrev pub insert_column : Text × ℕ → List (Text × ℕ) → List (Text × ℕ)
insert_column (t, p) [] = (t, p) ∷ []
insert_column (t, p) ((u, q) ∷ us) =
    let rest = insert_column (t, p) us in if ltb p q then (t, p) ∷ (u, q) ∷ us else (u, q) ∷ rest

abbrev pub by_position : List (Text × ℕ) → List (Text × ℕ)
by_position [] = []
by_position (c ∷ cs) = insert_column c (by_position cs)

unfoldable pub primary_key_columns : TableInfo → List Text
primary_key_columns info = map (λ c. c.0) (by_position (filter (λ c. not (c.1 == 0)) info.columns))

unfoldable pub same_ordered_columns : List Text → List Text → Bool
same_ordered_columns [] [] = true
same_ordered_columns (a ∷ actual) (e ∷ expected) =
    equal_fold (trim_space a) (trim_space e) && same_ordered_columns actual expected
same_ordered_columns _ _ = false

-- Over the indexes that are unique and whole; nothing where one cannot be read.
unfoldable pub has_unique_index : List Index → List Text → Option Bool
unfolding same_ordered_columns
has_unique_index [] expected = some false
has_unique_index (index ∷ indexes) expected =
    let rest = has_unique_index indexes expected in
    if index.is_unique && not index.is_partial
    then elim index.columns [
      | none ↦ none
      | some columns ↦ if same_ordered_columns columns expected then some true else rest
    ]
    else rest

-- Whether a table's key is unique: by its primary key, or by an index.
unfoldable pub has_unique_key : TableInfo → List Text → Bool
unfolding primary_key_columns has_unique_index
has_unique_key info key =
    if same_ordered_columns (primary_key_columns info) key then true else elim info.indexes [
      | none ↦ false
      | some indexes ↦ elim (has_unique_index indexes key) [ none ↦ false | some b ↦ b ]
    ]

unfoldable pub table_is_valid : TableRule → TableInfo → Bool
unfolding has_all has_unique_key
table_is_valid rule info = has_all rule.must_have (lower_names info) && has_unique_key info rule.key

module _ (inspect : Text → Option TableInfo) where
  -- The tables with their columns, in their order; nothing where one is not as it must be.
  unfoldable pub checked_tables : List TableRule → Option (List (Text × List Text))
  unfolding table_is_valid
  checked_tables [] = some []
  checked_tables (rule ∷ rules) =
      let rest = checked_tables rules in
      elim (inspect rule.name) [
        | none ↦ none
        | some info ↦
            if table_is_valid rule info
            then elim rest [
              | none ↦ none
              | some tables ↦ some ((rule.name, lower_names info) ∷ tables)
            ]
            else none
      ]

  abbrev pub comma_joined : List Text → Text
  comma_joined [] = []
  comma_joined (t ∷ []) = t
  comma_joined (t ∷ u ∷ ts) = t ++ b',' ∷ comma_joined (u ∷ ts)

  abbrev pub canonical_tables : List (Text × List Text) → Text
  canonical_tables [] = []
  canonical_tables ((name, columns) ∷ tables) =
      name ++ b'(' ∷ comma_joined (sorted columns) ++ b')' ∷ canonical_tables tables

  unfoldable pub compute_schema_identity : Tables → List (Text × List Text) → Text
  unfolding sorted
  compute_schema_identity c tables =
      codes "emby-media-" ++ take 16 (c.sha256_hex (canonical_tables tables))

  -- The identity of the schema.
  unfoldable pub validate_schema : Tables → Option Text
  unfolding checked_tables compute_schema_identity
  validate_schema c = elim (checked_tables media_schema) [
    | none ↦ none
    | some tables ↦ some (compute_schema_identity c tables)
  ]

-- The first three parts of a version, or nothing.
unfoldable pub series_of : Text → Text
unfolding split
series_of version = elim (split b'.' (trim_space version)) [
  | [] ↦ []
  | a ∷ bs ↦ elim bs [ [] ↦ [] | b ∷ cs ↦ elim cs [ [] ↦ [] | c ∷ ds ↦ a ++ b'.' ∷ b ++ b'.' ∷ c ] ]
]

-- The versions that can be written, with those of the environment's variable.
unfoldable pub load_supported_series : Text → List Text
unfolding series_of
load_supported_series declared =
    codes "4.8.11"
    ∷ codes "4.9.5"
    ∷ filter (λ t. not (is_empty t)) (map series_of (split b',' declared))

unfoldable pub validate_version_pair : Text → Text → Text → Bool
unfolding load_supported_series
validate_version_pair declared source target =
    let supported = load_supported_series declared in
    contains supported (series_of source)
    && contains supported (series_of target)
    && text_eq (series_of source) (series_of target)
