-- ===== src/ManifestWatermarks.antt =====
-- market_pipeline_lib/manifest_watermarks.py: the newest AVAILABLE manifest of each active feed
-- becomes the feed's watermark.
pub mod Latest
pub mod Advance
pub mod Project
pub mod Examples
use idea2strategy_data_pipel.Prelude.{
  ℕ, suc, String, Bool, true, false, not, ◌&&◌, ◌||◌, Option, none, some, List, [], ◌∷◌, map,
  length, filter, is_none, ltb, if◌then◌else◌,
}
use idea2strategy_data_pipel.Prelude.Eq.{string_eq, ◌==◌, contains, distinct}
use idea2strategy_data_pipel.Prelude.Sort.{text_lt, sorted}
use idea2strategy_data_pipel.Prelude.Dict.{Dict, lookup, insert, keys}
use idea2strategy_data_pipel.Prelude.Result.{Result, ok, err, ◌>>=◌, or_raise}
use idea2strategy_data_pipel.Watermarks.Position.{
  DateTime, naive, aware, WatermarkError, StreamPosition, gt,
}
use idea2strategy_data_pipel.Watermarks.Row.{StreamWatermark, stream_watermark}
use idea2strategy_data_pipel.Watermarks.Repository.{WatermarkRepository}

pub record ProviderRow : Type 0 where
  pub id : String
  pub status : String

pub record FeedRow : Type 0 where
  pub id : String
  pub provider_id : String
  pub retired_at : Option ℕ

-- The columns of a manifest that the projection reads; `None` is a value that is no datetime.
pub record ManifestRow : Type 0 where
  pub feed_id : String
  pub status : String
  pub period_end : Option DateTime
  pub available_at : Option DateTime

pub record Catalog : Type 0 where
  pub providers : List ProviderRow
  pub feeds : List FeedRow
  pub manifests : List ManifestRow

-- A `ValueError` of `_instant`, or the error of a watermark.
pub data ProjectionError : Type 0 where
  not_a_datetime not_timezone_aware missing_key : ProjectionError
  refused : WatermarkError → ProjectionError

-- `_instant`, on a value that is a datetime or is none.
unfoldable pub instant : Option DateTime → Result ProjectionError ℕ
instant none = err not_a_datetime
instant (some (naive t)) = err not_timezone_aware
instant (some (aware t)) = ok t

unfoldable pub active_provider_ids : Catalog → List String
active_provider_ids c =
    map (λ (p : ProviderRow). p.id) (filter (λ (p : ProviderRow). p.status == "ACTIVE") c.providers)

unfoldable pub active_feed_ids : Catalog → List String
unfolding active_provider_ids
active_feed_ids c =
    map (λ (f : FeedRow). f.id)
      (filter
        (λ (f : FeedRow). contains (active_provider_ids c) f.provider_id && is_none f.retired_at)
        c.feeds)

-- What the loop keeps of a manifest.
pub record Candidate : Type 0 where
  pub period_end : ℕ
  pub available_at : ℕ

keep_latest : Dict String Candidate → String → Candidate → Option Candidate → Dict String Candidate
keep_latest latest feed_id candidate none = insert feed_id candidate latest
keep_latest latest feed_id candidate (some current) =
    if ltb current.period_end candidate.period_end then insert feed_id candidate latest else latest

-- One round of the loop over the manifests.
consider :
    List String
    → Dict String Candidate
    → ManifestRow
    → Result ProjectionError (Dict String Candidate)
unfolding instant keep_latest
consider active latest m =
    if not (contains active m.feed_id) || not (m.status == "AVAILABLE") then ok latest else do
      period_end ← instant m.period_end
      available_at ← instant m.available_at
      ok (
          keep_latest latest m.feed_id
            (record { period_end = period_end; available_at = available_at })
            (lookup m.feed_id latest))

unfoldable pub latest_from :
    List String
    → Dict String Candidate
    → List ManifestRow
    → Result ProjectionError (Dict String Candidate)
unfolding consider
latest_from active latest [] = ok latest
latest_from active latest (m ∷ ms) = do
  latest' ← consider active latest m
  latest_from active latest' ms

pub record Projected : Type 0 where
  pub feed_id : String
  pub last_source_event_at : StreamPosition
  pub last_ingested_at : ℕ

pub record Projection : Type 0 where
  pub active_feed_count : ℕ
  pub advanced_feed_count : ℕ
  pub watermarks : List Projected

raised : {A : Type 0} → Result WatermarkError A → Result ProjectionError A
raised (ok a) = ok a
raised (err e) = err (refused e)

-- `before is None or stored.position > before.position`.
abbrev pub has_advanced : Option StreamWatermark → StreamWatermark → Bool
has_advanced none stored = true
has_advanced (some before) stored = gt stored.position before.position

-- `StreamPosition(manifest["period_end"])`.
abbrev pub candidate_position : Candidate → StreamPosition
candidate_position c = record { source_event_at = c.period_end; sequence = none }

module _ {R : Type 0} (repo : WatermarkRepository R) where
  open repo use {load, advance}

  -- The loop over the feeds, with the number that advanced and the rows so far behind it.
  unfoldable pub advance_feeds :
      ℕ → Dict String Candidate → List String → R → Result ProjectionError (ℕ × List Projected × R)
  unfolding raised
  advance_feeds observed latest [] r = ok (0, [], r)
  advance_feeds observed latest (feed_id ∷ rest) r = do
    candidate ← or_raise (lookup feed_id latest) missing_key
    w ← raised (
        stream_watermark feed_id (candidate_position candidate) (aware candidate.available_at)
          (some (aware observed)))
    let (stored, r') = advance r w
    (advanced, rows, last) ← advance_feeds observed latest rest r'
    ok (
      (if has_advanced (load r feed_id) stored then suc advanced else advanced),
      record {
        feed_id = feed_id;
        last_source_event_at = stored.position;
        last_ingested_at = stored.ingested_at;
      }
          ∷ rows,
      last,
    )

  -- `advance_available_manifest_watermarks`, at the instant `observed`.
  unfoldable pub advance_available_manifest_watermarks :
      Catalog → ℕ → R → Result ProjectionError (Projection × R)
  advance_available_manifest_watermarks c observed r = do
    latest ← latest_from (active_feed_ids c) [] c.manifests
    (advanced, rows, r') ← advance_feeds observed latest (sorted text_lt (keys latest)) r
    ok (
      record {
        active_feed_count = length (distinct (active_feed_ids c));
        advanced_feed_count = advanced;
        watermarks = rows;
      },
      r',
    )
