-- ===== src/Core/Confidence.antt =====
-- internal/core/types.go: the confidence thresholds and the verdict over a ranked hit list.
pub mod Signals
use ioc.Base.{
  Bool, true, false, not, ◌&&◌, List, [], ◌∷◌, Text, Option, none, some, bytes, text_eq, ◌++◌,
  if◌then◌else◌,
}
use ioc.Core.Types.{Hit}
use ioc.Core.Floats.{Floats}

pub record Confidence (F : Type 0) : Type 0 where
  pub floor : F
  pub margin_floor : F
  pub rerank_floor : F
  pub calibrated : Bool

-- the confidence codes "ok", "floor_miss", "margin_ambiguous" and "empty"
pub data Verdict : Type 0 where
  confident floor_miss margin_ambiguous empty : Verdict

-- the values of `RankedBy`
pub data Signal : Type 0 where
  cosine rerank : Signal

pub record Decision (F : Type 0) : Type 0 where
  pub confidence : Verdict
  pub weak_match : Bool
  pub ranked_by : Signal
  pub top_score : F
  pub margin : F

abbrev is_confident : Verdict → Bool
is_confident confident = true
is_confident _ = false

abbrev is_some {ℓ} : {A : Type ℓ} → Option A → Bool
is_some none = false
is_some (some a) = true

module _ ⦃f : Floats⦄ where
  unfoldable pub confidence_floor : Text → f.Float
  confidence_floor model =
      if text_eq model (bytes "BAAI/bge-small-en-v1.5")
      then f.decimal 68 2
      else if text_eq model (bytes "mock-bow")
      then f.decimal 0 0
      else f.decimal 5 1

  unfoldable pub rerank_floor_of : Text → f.Float
  rerank_floor_of model = f.decimal 5 1

  unfoldable pub margin_floor_of : Text → f.Float
  margin_floor_of model =
      if text_eq model (bytes "BAAI/bge-small-en-v1.5")
      then f.decimal 5 2
      else if text_eq model (bytes "mock-bow")
      then f.decimal 0 0
      else f.decimal 3 2

  unfoldable pub default_confidence : Text → Confidence f.Float
  default_confidence model = record {
    floor = confidence_floor model;
    margin_floor = margin_floor_of model;
    rerank_floor = rerank_floor_of model;
    calibrated = false;
  }

  -- `parse_float` is `strconv.ParseFloat`, `get` the config reader
  module _ (parse_float : Text → Option f.Float) (get : Text → Option Text) where
    unfoldable pub config_float : Text → Text → Option f.Float
    config_float key model = elim (get (key ++ model)) [ none ↦ none | some v ↦ parse_float v ]

    unfoldable pub resolve_confidence : Text → Confidence f.Float
    unfolding config_float default_confidence
    resolve_confidence model =
        let c = default_confidence model in
        let floor = config_float (bytes "conf.floor.") model in
        let margin = config_float (bytes "conf.margin.") model in
        let rerank = config_float (bytes "conf.rerank.") model in
        record {
          floor = elim floor [ none ↦ c.floor | some v ↦ v ];
          margin_floor = elim margin [ none ↦ c.margin_floor | some v ↦ v ];
          rerank_floor = elim rerank [ none ↦ c.rerank_floor | some v ↦ v ];
          calibrated = is_some floor;
        }

  -- the score of a hit on the signal in force
  unfoldable pub hit_score : Bool → Hit f.Float → f.Float
  hit_score reranked h = elim h.rerank_score [
    | none ↦ h.score
    | some r ↦ if reranked then r else h.score
  ]

  unfoldable pub is_reranked : List (Hit f.Float) → Bool
  is_reranked [] = false
  is_reranked (h ∷ hs) = is_some h.rerank_score

  unfoldable pub margin_valid : Bool → List (Hit f.Float) → Bool
  margin_valid reranked (h ∷ g ∷ hs) = if reranked then is_some g.rerank_score else true
  margin_valid reranked _ = false

  unfoldable pub top_of : Bool → List (Hit f.Float) → f.Float
  unfolding hit_score
  top_of reranked [] = f.decimal 0 0
  top_of reranked (h ∷ hs) = hit_score reranked h

  unfoldable pub margin_of : Bool → List (Hit f.Float) → f.Float
  unfolding hit_score margin_valid
  margin_of reranked (h ∷ g ∷ hs) =
      if margin_valid reranked (h ∷ g ∷ hs)
      then f.sub (hit_score reranked h) (hit_score reranked g)
      else f.decimal 0 0
  margin_of reranked _ = f.decimal 0 0

  abbrev verdict : List (Hit f.Float) → Bool → Bool → Verdict
  verdict [] low ambiguous = empty
  verdict (h ∷ hs) low ambiguous =
      if low then floor_miss else if ambiguous then margin_ambiguous else confident

  -- `Decide`
  unfoldable pub decide : List (Hit f.Float) → Confidence f.Float → Decision f.Float
  unfolding is_reranked top_of margin_of margin_valid
  decide hits conf =
      let reranked = is_reranked hits in
      let top = top_of reranked hits in
      let margin = margin_of reranked hits in
      let floor = if reranked then conf.rerank_floor else conf.floor in
      let ambiguous =
        not reranked && (margin_valid reranked hits && f.lt margin conf.margin_floor) in
      let v = verdict hits (f.lt top floor) ambiguous in
      record {
        confidence = v;
        weak_match = not (is_confident v);
        ranked_by = if reranked then rerank else cosine;
        top_score = top;
        margin = margin;
      }
