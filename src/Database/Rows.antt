-- ===== src/Database/Rows.antt =====
-- internal/embydb/embydb.go: the rows that are made of a plan's streams and chapters.
use emby_migrator.Prelude.{ℕ, Option, none, some, List, [], ◌∷◌, Text, codes, if◌then◌else◌}
use emby_migrator.Prelude.Int.{ℤ, pos, negsuc, int_eq, int_leb, times64}
use emby_migrator.Database.Values.{
  Numbers, Value, null, integer, Fields, pick, fold_keys, bool_integer, integer_value,
  stream_type_value, marker_type_value, integer_or_zero,
}
use emby_migrator.Database.Tables.{Row, Summary}

-- The columns of MediaStreams2, in the order of the insert; the width is written to Emby's column Height
-- and the height to its column Width.
abbrev pub stream_insert_columns : List Text
stream_insert_columns =
    codes "ItemId"
    ∷ codes "StreamIndex"
    ∷ codes "StreamType"
    ∷ codes "Codec"
    ∷ codes "Language"
    ∷ codes "ChannelLayout"
    ∷ codes "Profile"
    ∷ codes "AspectRatio"
    ∷ codes "Path"
    ∷ codes "IsInterlaced"
    ∷ codes "BitRate"
    ∷ codes "Channels"
    ∷ codes "SampleRate"
    ∷ codes "IsDefault"
    ∷ codes "IsForced"
    ∷ codes "IsHearingImpaired"
    ∷ codes "IsExternal"
    ∷ codes "Height"
    ∷ codes "Width"
    ∷ codes "AverageFrameRate"
    ∷ codes "RealFrameRate"
    ∷ codes "Level"
    ∷ codes "PixelFormat"
    ∷ codes "BitDepth"
    ∷ codes "IsAnamorphic"
    ∷ codes "RefFrames"
    ∷ codes "Rotation"
    ∷ codes "CodecTag"
    ∷ codes "Comment"
    ∷ codes "NalLengthSize"
    ∷ codes "Title"
    ∷ codes "TimeBase"
    ∷ codes "ColorPrimaries"
    ∷ codes "ColorSpace"
    ∷ codes "ColorTransfer"
    ∷ codes "Extradata"
    ∷ codes "AttachmentSize"
    ∷ codes "MimeType"
    ∷ codes "ExtendedVideoType"
    ∷ codes "ExtendedVideoSubtype"
    ∷ []

abbrev pub chapter_columns : List Text
chapter_columns =
    codes "ItemId"
    ∷ codes "ChapterIndex"
    ∷ codes "StartPositionTicks"
    ∷ codes "Name"
    ∷ codes "ImagePath"
    ∷ codes "ImageDateModified"
    ∷ codes "MarkerType"
    ∷ []

-- -62135596800
abbrev pub empty_date_modified : ℤ
empty_date_modified = negsuc 62135596799

module _ (n : Numbers) where
  -- The index that a value gives, or the position in the list.
  abbrev pub index_or : ℕ → Value n → ℤ
  index_or position value = elim (integer_value n value) [ some i ↦ i | none ↦ pos position ]

  unfoldable pub stream_values : ℕ → ℤ → ℤ → Fields n → List (Value n)
  unfolding pick bool_integer
  stream_values id index type stream =
      integer (pos id)
      ∷ integer index
      ∷ integer type
      ∷ pick n stream (codes "codec")
      ∷ pick n stream (codes "language")
      ∷ pick n stream (codes "channellayout")
      ∷ pick n stream (codes "profile")
      ∷ pick n stream (codes "aspectratio")
      ∷ null
      ∷ bool_integer n (pick n stream (codes "isinterlaced"))
      ∷ pick n stream (codes "bitrate")
      ∷ pick n stream (codes "channels")
      ∷ pick n stream (codes "samplerate")
      ∷ bool_integer n (pick n stream (codes "isdefault"))
      ∷ bool_integer n (pick n stream (codes "isforced"))
      ∷ bool_integer n (pick n stream (codes "ishearingimpaired"))
      ∷ bool_integer n (pick n stream (codes "isexternal"))
      ∷ pick n stream (codes "width")
      ∷ pick n stream (codes "height")
      ∷ pick n stream (codes "averageframerate")
      ∷ pick n stream (codes "realframerate")
      ∷ pick n stream (codes "level")
      ∷ pick n stream (codes "pixelformat")
      ∷ pick n stream (codes "bitdepth")
      ∷ bool_integer n (pick n stream (codes "isanamorphic"))
      ∷ pick n stream (codes "refframes")
      ∷ pick n stream (codes "rotation")
      ∷ pick n stream (codes "codectag")
      ∷ pick n stream (codes "comment")
      ∷ pick n stream (codes "nallengthsize")
      ∷ pick n stream (codes "title")
      ∷ pick n stream (codes "timebase")
      ∷ pick n stream (codes "colorprimaries")
      ∷ pick n stream (codes "colorspace")
      ∷ pick n stream (codes "colortransfer")
      ∷ pick n stream (codes "extradata")
      ∷ pick n stream (codes "attachmentsize")
      ∷ pick n stream (codes "mimetype")
      ∷ pick n stream (codes "extendedvideotype")
      ∷ pick n stream (codes "extendedvideosubtype")
      ∷ []

  -- The row of a folded stream; nothing where its type is not known.
  unfoldable pub stream_row : ℕ → ℕ → Fields n → Option (Row n)
  unfolding stream_values stream_type_value pick
  stream_row id position stream =
      let index = index_or position (pick n stream (codes "index")) in
      elim (stream_type_value n (pick n stream (codes "type"))) [
        | none ↦ none
        | some type ↦
            some
              (record { item_id = id; index = index; cells = stream_values id index type stream })
      ]

  -- The row of a chapter.
  unfoldable pub chapter_row : ℕ → ℕ → Fields n → Row n
  unfolding fold_keys pick marker_type_value
  chapter_row id position raw =
      let chapter = fold_keys n raw in
      let index = index_or position (pick n chapter (codes "chapterindex")) in
      let start = integer_or_zero n (pick n chapter (codes "startpositionticks")) in
      let marker = marker_type_value n (pick n chapter (codes "markertype")) in
      record {
        item_id = id;
        index = index;
        cells =
            integer (pos id)
            ∷ integer index
            ∷ integer start
            ∷ pick n chapter (codes "name")
            ∷ null
            ∷ integer empty_date_modified
            ∷ integer marker
            ∷ [];
      }

  -- The loop of `primaryVideoDimensions`: the largest video stream so far, and its pixels; of streams
  -- that are as large the last one.
  unfoldable pub largest : List (Fields n) → Option (Fields n) → ℤ → Option (Fields n)
  unfolding stream_type_value pick
  largest [] best best_pixels = best
  largest (stream ∷ streams) best best_pixels =
      let pixels =
        times64 (integer_or_zero n (pick n stream (codes "width")))
          (integer_or_zero n (pick n stream (codes "height"))) in
      let as_best = largest streams (some stream) pixels in
      let as_before = largest streams best best_pixels in
      elim (stream_type_value n (pick n stream (codes "type"))) [
        | none ↦ as_before
        | some type ↦
            if int_eq type (pos 2)
            then (if int_leb best_pixels pixels then as_best else as_before)
            else as_before
      ]

  unfoldable pub primary_video_dimensions : List (Fields n) → Value n × Value n
  unfolding largest
  primary_video_dimensions streams = elim (largest streams none (pos 0)) [
    | none ↦ (null, null)
    | some best ↦ (pick n best (codes "width"), pick n best (codes "height"))
  ]

  -- What `updateItem` is given; the source and the streams are folded.
  unfoldable pub summary_of : Fields n → List (Fields n) → Summary n
  unfolding primary_video_dimensions
  summary_of source streams =
      let (width, height) = primary_video_dimensions streams in
      record {
        set_run_time_ticks = pick n source (codes "runtimeticks");
        set_total_bitrate = pick n source (codes "bitrate");
        set_width = width;
        set_height = height;
        set_size = pick n source (codes "size");
        set_container = pick n source (codes "container");
      }
