-- ===== src/Eval/Abstention.antt =====
-- internal/eval: abstention.go, and the loop of CalibrateRun of calibrate.go over the hit lists that its
-- queries return.
use ioc.Base.{
  ℕ, suc, ◌-◌, Bool, not, ◌&&◌, List, [], ◌∷◌, Option, none, some, Result, ok, err, internal,
  and_then, ltb, length, if◌then◌else◌,
}
use ioc.Core.Types.{Hit, nil_id}
use ioc.Core.Floats.{Floats}
use ioc.Core.Confidence.{Confidence, Signal, decide, is_reranked}

-- `Probe`
pub record Probe (F : Type 0) : Type 0 where
  pub num_hits : ℕ
  pub top1 : F
  pub top2 : F
  pub reranked : Bool

-- `AbstentionReport`
pub record AbstentionReport (F : Type 0) : Type 0 where
  pub present_n : ℕ
  pub absent_n : ℕ
  pub present_weak : ℕ
  pub absent_weak : ℕ
  pub false_neg_rate : F
  pub false_pos_rate : F
  pub ranked_by : Signal

-- what CalibrateRun keeps of its questions: the probes with an expected answer, and those without
pub record Probes (F : Type 0) : Type 0 where
  pub present : List (Probe F)
  pub absent : List (Probe F)

module _ ⦃f : Floats⦄ where
  -- a hit with one score and nothing else
  abbrev bare_hit : f.Float → Option f.Float → Hit f.Float
  bare_hit score rerank_score = record {
    artifact = nil_id;
    scope = nil_id;
    scope_path = [];
    kind = 0;
    tier = 0;
    summary = [];
    score = score;
    rerank_score = rerank_score;
    meta = [];
    content = [];
    superseded_by = nil_id;
  }

  -- `mk`
  unfoldable pub make_hit : Bool → f.Float → Hit f.Float
  make_hit reranked s = if reranked then bare_hit (f.decimal 0 0) (some s) else bare_hit s none

  -- `toHits`
  unfoldable pub to_hits : Probe f.Float → List (Hit f.Float)
  unfolding make_hit
  to_hits p =
      if ltb 0 p.num_hits
      then make_hit p.reranked p.top1
        ∷ (if ltb 1 p.num_hits then make_hit p.reranked p.top2 ∷ [] else [])
      else []

  -- `sig`
  unfoldable pub signal_of : Bool → Hit f.Float → f.Float
  signal_of rerank h = elim h.rerank_score [
    | none ↦ h.score
    | some r ↦ if rerank then r else h.score
  ]

  abbrev pub first_signal : Bool → List (Hit f.Float) → f.Float
  first_signal rerank [] = f.decimal 0 0
  first_signal rerank (h ∷ hs) = signal_of rerank h

  abbrev pub second_signal : Bool → List (Hit f.Float) → f.Float
  second_signal rerank (h ∷ g ∷ hs) = signal_of rerank g
  second_signal rerank _ = f.decimal 0 0

  -- the probe of one question; a run that asks for the rerank signal needs a first hit with one
  unfoldable pub probe_of : Bool → List (Hit f.Float) → Result (Probe f.Float)
  unfolding signal_of is_reranked
  probe_of rerank hits =
      if rerank && (ltb 0 (length hits) && not (is_reranked hits))
      then err internal
      else ok (record {
        num_hits = length hits;
        top1 = first_signal rerank hits;
        top2 = second_signal rerank hits;
        reranked = rerank;
      })

  abbrev pub with_probe : Bool → Probe f.Float → Probes f.Float → Probes f.Float
  with_probe gold p ps =
      if gold then record ps { present = p ∷ ps.present } else record ps { absent = p ∷ ps.absent }

  -- the loop of CalibrateRun over its questions: whether there is an expected answer, and the hits
  unfoldable pub probes_of : Bool → List (Bool × List (Hit f.Float)) → Result (Probes f.Float)
  unfolding probe_of
  probes_of rerank [] = ok (record { present = []; absent = [] })
  probes_of rerank ((gold, hits) ∷ qs) =
      and_then (probe_of rerank hits)
        (λ p. and_then (probes_of rerank qs) (λ ps. ok (with_probe gold p ps)))

  -- the loop of `Abstention` over its probes, with the signal of the last one
  unfoldable pub count_weak : Confidence f.Float → List (Probe f.Float) → ℕ × Signal → ℕ × Signal
  unfolding decide to_hits
  count_weak conf [] acc = acc
  count_weak conf (p ∷ ps) (n, by) =
      let d = decide (to_hits p) conf in
      count_weak conf ps ((if d.weak_match then suc n else n), d.ranked_by)

  abbrev rate : ℕ → ℕ → f.Float
  rate n total = if ltb 0 total then f.div (f.of_int n) (f.of_int total) else f.decimal 0 0

  -- `Abstention`
  unfoldable pub abstention :
      List (Probe f.Float) → List (Probe f.Float) → Confidence f.Float → AbstentionReport f.Float
  unfolding count_weak
  abstention present absent conf =
      let (n, by) = count_weak conf present (0, Signal.cosine) in
      let (k, last) = count_weak conf absent (0, by) in
      record {
        present_n = length present;
        absent_n = length absent;
        present_weak = n;
        absent_weak = k;
        false_neg_rate = rate n (length present);
        false_pos_rate = rate (length absent - k) (length absent);
        ranked_by = last;
      }
