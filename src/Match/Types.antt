-- ===== src/Match/Types.antt =====
-- internal/exporter/service.go: what is matched, and what the search is given.
-- Years and numbers that are negative do not occur; 0 is an unknown one.
use emby_migrator.Prelude.{ℕ, Option, List, Text}
use emby_migrator.Storage.Slug.{Letters}

-- `emby.Item`, as far as the search reads it.
pub record Item : Type 0 where
  pub id : Text
  pub name : Text
  pub kind : Text
  pub path : Text
  pub original_title : Text
  pub production_year : ℕ
  pub series_name : Text
  pub index_number : ℕ
  pub parent_index_number : ℕ

-- `storage.ItemEntry`, as far as the search reads it.
pub record Sought : Type 0 where
  pub name : Text
  pub kind : Text
  pub path : Text
  pub original_title : Text
  pub production_year : ℕ
  pub series_name : Text
  pub index_number : ℕ
  pub parent_index_number : ℕ
  pub provider_ids : List (Text × Text)

-- Regular expressions, by what their matching answers, and Unicode's tables. `episode` is
-- `(?i)\bS(\d{1,2})E(\d{1,3})\b`, `season` the groups of `seasonPattern`, `[]` where there is no match;
-- the others take away the match of `seriesYearBraceTail` and so on, if there is one.
pub record Patterns : Type 0 where
  pub letters : Letters
  pub episode : Text → Option (Text × Text)
  pub season : Text → List Text
  pub cut_series_brace : Text → Text
  pub cut_series_meta : Text → Text
  pub cut_series_year : Text → Text
  pub cut_short_dash : Text → Text
  pub cut_short_meta : Text → Text

-- The target server: a search by term, type and limit, and by a provider's id; `none` is an error.
pub record Client : Type 0 where
  pub search_items : Text → Text → ℕ → Option (List Item)
  pub items_by_provider_id : Text → Option (List Item)
