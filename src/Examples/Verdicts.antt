-- ===== src/Examples/Verdicts.antt =====
-- The confidence verdict on two hits.
use ioc.Core.Confidence.{Confidence, decide, is_reranked}
use ioc.Core.Confidence.Signals.{with_cosine, decide-with_cosine}
use ioc.Base.{Bool, ok, ℕ, map, Option, true, false, bytes, List, [], ◌∷◌, none, some, ◌≡◌, refl}
use ioc.Core.Types.{Hit}
use ioc.Eval.Abstention.{Probes, probes_of, abstention}
use ioc.Eval.Agreement.{abstention-weak_where, weak_where}
use ioc.Examples.Libraries.{sample_meta, sample_blobs, sample_vectors, sample_embedder, fixed}

abbrev sample_hit : Option ℕ → ℕ → Hit ℕ
sample_hit r c = record {
  artifact = 2;
  scope = 1;
  scope_path = bytes "/repo";
  kind = 2;
  tier = 1;
  summary = bytes "cache is LRU";
  score = c;
  rerank_score = r;
  meta = [];
  content = [];
  superseded_by = 0;
}

abbrev thresholds : Confidence ℕ
thresholds = record {
  floor = 500000;
  margin_floor = 30000;
  rerank_floor = 500000;
  calibrated = false;
}

abbrev reranked_hits : List (Hit ℕ)
reranked_hits = sample_hit (some 900000) 510000 ∷ sample_hit (some 200000) 505000 ∷ []

abbrev cosine_hits : List (Hit ℕ)
cosine_hits = sample_hit none 510000 ∷ sample_hit (some 200000) 505000 ∷ []

top_reranked : is_reranked ⦃f = fixed⦄ reranked_hits ≡ true
unfolding is_reranked
top_reranked = refl

top_cosine : is_reranked ⦃f = fixed⦄ cosine_hits ≡ false
unfolding is_reranked
top_cosine = refl

decide-with_cosine_example :
    decide ⦃f = fixed⦄ (map (with_cosine ⦃f = fixed⦄ (λ h. 0)) reranked_hits) thresholds
    ≡ decide ⦃f = fixed⦄ reranked_hits thresholds
decide-with_cosine_example =
    decide-with_cosine ⦃f = fixed⦄ (λ h. 0) reranked_hits thresholds top_reranked

-- a question with an answer, and one whose query returned nothing
abbrev questions : List (Bool × List (Hit ℕ))
questions = (true, reranked_hits) ∷ (false, []) ∷ []

abbrev captured : Probes ℕ
captured = record {
  present = record { num_hits = 2; top1 = 900000; top2 = 200000; reranked = true } ∷ [];
  absent = record { num_hits = 0; top1 = 0; top2 = 0; reranked = true } ∷ [];
}

both_captured : probes_of ⦃f = fixed⦄ true questions ≡ ok captured
unfolding probes_of
both_captured = refl

abstention-weak_where_example :
    ((abstention ⦃f = fixed⦄ captured.present captured.absent thresholds).present_weak
      ≡ weak_where ⦃f = fixed⦄ thresholds true questions)
    × ((abstention ⦃f = fixed⦄ captured.present captured.absent thresholds).absent_weak
        ≡ weak_where ⦃f = fixed⦄ thresholds false questions)
abstention-weak_where_example =
    abstention-weak_where ⦃f = fixed⦄ thresholds true questions captured
      ((λ e. cc), ((λ e. cc), tt)) both_captured
