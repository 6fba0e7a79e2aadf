-- ===== src/Eval/Agreement.antt =====
-- internal/eval: the abstention report of a calibration, and the verdicts that production gives.
use ioc.Base.{
  ℕ, suc, ◌+◌, Bool, true, false, not, ◌&&◌, List, [], ◌∷◌, none, some, ok, ltb, length,
  if◌then◌else◌, ◌≡◌, refl, sym, ap, ◌∙◌, inl, inr, Option-cases, All, arith, ok-injective, subst,
}
use ioc.Core.Types.{Hit}
use ioc.Core.Floats.{Floats}
use ioc.Core.Confidence.{
  Confidence, Decision, Signal, decide, is_reranked, hit_score, top_of, margin_of, margin_valid,
}
use ioc.Storage.Meta.Values.{and_then-eq-ok}
use ioc.Eval.Abstention.{
  Probe, Probes, make_hit, to_hits, signal_of, first_signal, second_signal, probe_of, probes_of,
  count_weak, abstention, with_probe,
}

add_one :
    (b : Bool) (n w : ℕ) (count : ℕ → ℕ)
    → ((k : ℕ) → count k ≡ k + w)
    → count (if b then suc n else n) ≡ n + ((if b then 1 else 0) + w)
add_one true n w count h = h (suc n) ∙ omega arith
add_one false n w count h = h n ∙ omega arith

module _ ⦃f : Floats⦄ where
  -- two decisions that agree but for the margin
  pub record SameVerdict (d d' : Decision f.Float) : Type 0 where
    confidence : d.confidence ≡ d'.confidence
    weak_match : d.weak_match ≡ d'.weak_match
    ranked_by : d.ranked_by ≡ d'.ranked_by
    top_score : d.top_score ≡ d'.top_score

  abbrev probed : Bool → List (Hit f.Float) → Probe f.Float
  probed rerank hits = record {
    num_hits = length hits;
    top1 = first_signal rerank hits;
    top2 = second_signal rerank hits;
    reranked = rerank;
  }

  module _ (conf : Confidence f.Float) where
    reranked-SameVerdict :
        (h : Hit f.Float) (hs : List (Hit f.Float)) (r : f.Float)
        → h.rerank_score ≡ some r
        → SameVerdict (decide (to_hits (probed true (h ∷ hs))) conf) (decide (h ∷ hs) conf)
    unfolding decide to_hits make_hit signal_of is_reranked hit_score top_of margin_of margin_valid
    reranked-SameVerdict h hs r e =
        let some_hits : ltb 0 (suc (length hs)) ≡ true = ground arith in
        rw (some_hits, e)
          (record { confidence = refl; weak_match = refl; ranked_by = refl; top_score = refl })

    cosine-SameVerdict :
        (h : Hit f.Float) (hs : List (Hit f.Float))
        → h.rerank_score ≡ none
        → SameVerdict (decide (to_hits (probed false (h ∷ hs))) conf) (decide (h ∷ hs) conf)
    unfolding decide to_hits make_hit signal_of is_reranked hit_score top_of margin_of margin_valid
    cosine-SameVerdict h [] e =
        rw e (record { confidence = refl; weak_match = refl; ranked_by = refl; top_score = refl })
    cosine-SameVerdict h (g ∷ hs) e =
        let one : ltb 0 (suc (suc (length hs))) ≡ true = ground arith in
        let two : ltb 1 (suc (suc (length hs))) ≡ true = ground arith in
        elim (Option-cases g.rerank_score) [
          | inl n ↦
              rw (one, two, e, n)
                (record {
                  confidence = refl;
                  weak_match = refl;
                  ranked_by = refl;
                  top_score = refl;
                })
          | inr (r, n) ↦
              rw (one, two, e, n)
                (record {
                  confidence = refl;
                  weak_match = refl;
                  ranked_by = refl;
                  top_score = refl;
                })
        ]

    -- the query was reranked exactly where the run asked for it
    abbrev pub IsOnSignal : Bool → List (Hit f.Float) → Type 0
    IsOnSignal rerank hits = rerank ≡ false → is_reranked hits ≡ false

    probe_of-SameVerdict :
        (rerank : Bool) (hits : List (Hit f.Float)) (p : Probe f.Float)
        → IsOnSignal rerank hits
        → probe_of rerank hits ≡ ok p
        → SameVerdict (decide (to_hits p) conf) (decide hits conf)
    unfolding probe_of is_reranked decide to_hits top_of margin_of margin_valid
    probe_of-SameVerdict true [] p on h =
        subst (λ q. SameVerdict (decide (to_hits q) conf) (decide [] conf)) (ok-injective h)
          (record { confidence = refl; weak_match = refl; ranked_by = refl; top_score = refl })
    probe_of-SameVerdict false [] p on h =
        subst (λ q. SameVerdict (decide (to_hits q) conf) (decide [] conf)) (ok-injective h)
          (record { confidence = refl; weak_match = refl; ranked_by = refl; top_score = refl })
    probe_of-SameVerdict true (x ∷ xs) p on h =
        let some_hits : ltb 0 (suc (length xs)) ≡ true = ground arith in
        elim (Option-cases x.rerank_score) [
          | inl n ↦ let g = rw (some_hits, n) at h in cc
          | inr (r, e) ↦
              let read : probe_of true (x ∷ xs) ≡ ok (probed true (x ∷ xs)) =
                rw (some_hits, e) refl in
              subst (λ q. SameVerdict (decide (to_hits q) conf) (decide (x ∷ xs) conf))
                (ok-injective (sym read ∙ h)) (reranked-SameVerdict x xs r e)
        ]
    probe_of-SameVerdict false (x ∷ xs) p on h = elim (Option-cases x.rerank_score) [
      | inl n ↦
          subst (λ q. SameVerdict (decide (to_hits q) conf) (decide (x ∷ xs) conf)) (ok-injective h)
            (cosine-SameVerdict x xs n)
      | inr (r, e) ↦ let g = rw e at on refl in cc
    ]

    abbrev weak_in : List (Probe f.Float) → ℕ
    weak_in [] = 0
    weak_in (p ∷ ps) = (if (decide (to_hits p) conf).weak_match then 1 else 0) + weak_in ps

    count_weak-weak_in :
        (ps : List (Probe f.Float)) (n : ℕ) (by : Signal)
        → (count_weak conf ps (n, by)).0 ≡ n + weak_in ps
    unfolding count_weak
    count_weak-weak_in [] n by = omega arith
    count_weak-weak_in (p ∷ ps) n by =
        let d = decide (to_hits p) conf in
        add_one d.weak_match n (weak_in ps) (λ k. (count_weak conf ps (k, d.ranked_by)).0)
          (λ k. count_weak-weak_in ps k d.ranked_by)

    -- among the questions with an expected answer, or those without: how many of the hit lists the
    -- verdict calls a weak match
    abbrev pub weak_where : Bool → List (Bool × List (Hit f.Float)) → ℕ
    weak_where want [] = 0
    weak_where want ((gold, hits) ∷ qs) =
        (if (if want then gold else not gold) && (decide hits conf).weak_match then 1 else 0)
        + weak_where want qs

    with_probe-weak_where :
        (gold : Bool) (hits : List (Hit f.Float)) (qs : List (Bool × List (Hit f.Float)))
        (p : Probe f.Float) (rest : Probes f.Float)
        → (decide (to_hits p) conf).weak_match ≡ (decide hits conf).weak_match
        → weak_in rest.present ≡ weak_where true qs
        → weak_in rest.absent ≡ weak_where false qs
        → (weak_in (with_probe gold p rest).present ≡ weak_where true ((gold, hits) ∷ qs))
          × (weak_in (with_probe gold p rest).absent ≡ weak_where false ((gold, hits) ∷ qs))
    with_probe-weak_where true hits qs p rest same present absent = (
      ap (λ b. (if b then 1 else 0) + weak_in rest.present) same
          ∙ ap (λ w. (if (decide hits conf).weak_match then 1 else 0) + w) present,
      absent ∙ omega arith,
    )
    with_probe-weak_where false hits qs p rest same present absent = (
      present ∙ omega arith,
      ap (λ b. (if b then 1 else 0) + weak_in rest.absent) same
          ∙ ap (λ w. (if (decide hits conf).weak_match then 1 else 0) + w) absent,
    )

    probes_of-weak_where :
        (rerank : Bool) (qs : List (Bool × List (Hit f.Float))) (ps : Probes f.Float)
        → All (λ q. IsOnSignal rerank q.1) qs
        → probes_of rerank qs ≡ ok ps
        → (weak_in ps.present ≡ weak_where true qs) × (weak_in ps.absent ≡ weak_where false qs)
    unfolding probes_of
    probes_of-weak_where rerank [] ps on h = rw (← ok-injective h) (refl, refl)
    probes_of-weak_where rerank ((gold, hits) ∷ qs) ps (on, ons) h =
        let (p, e, g) = and_then-eq-ok (probe_of rerank hits) _ h in
        let (rest, e2, g2) = and_then-eq-ok (probes_of rerank qs) _ g in
        let same = probe_of-SameVerdict rerank hits p on e in
        let (present, absent) = probes_of-weak_where rerank qs rest ons e2 in
        subst
          (λ x.
            (weak_in x.present ≡ weak_where true ((gold, hits) ∷ qs))
            × (weak_in x.absent ≡ weak_where false ((gold, hits) ∷ qs)))
          (ok-injective g2)
          (with_probe-weak_where gold hits qs p rest same.weak_match present absent)

    -- Where each query was reranked exactly if the run asks for the rerank signal: the report of a
    -- calibration counts as weak, of the questions with an expected answer and of those without, just
    -- those for whose hits the verdict of production is a weak match.
    pub abstention-weak_where :
        (rerank : Bool) (qs : List (Bool × List (Hit f.Float))) (ps : Probes f.Float)
        → All (λ q. IsOnSignal rerank q.1) qs
        → probes_of rerank qs ≡ ok ps
        → ((abstention ps.present ps.absent conf).present_weak ≡ weak_where true qs)
          × ((abstention ps.present ps.absent conf).absent_weak ≡ weak_where false qs)
    unfolding abstention
    abstention-weak_where rerank qs ps on h =
        let (present, absent) = probes_of-weak_where rerank qs ps on h in
        let by = (count_weak conf ps.present (0, Signal.cosine)).1 in
        (
          count_weak-weak_in ps.present 0 Signal.cosine ∙ omega (arith, present),
          count_weak-weak_in ps.absent 0 by ∙ omega (arith, absent),
        )
