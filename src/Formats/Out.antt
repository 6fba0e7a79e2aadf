-- ===== src/Formats/Out.antt =====
-- internal/iocfmt/out.go: the maps that the commands print as JSON.
use ioc.Base.{
  ℕ, Bool, true, false, List, [], ◌∷◌, ◌++◌, Text, bytes, text_eq, Option, none, some, is_empty,
  any, map, ◌≡◌, refl, Bool-cases, inl, inr, if◌then◌else◌,
}
use ioc.Core.Types.{
  Ulid, is_zero, Scope, Artifact, Hit, lookup, role_text, trust_key, trust_ingested,
}
use ioc.Core.Ulid.{Ulids}
use ioc.Core.Floats.{Floats}
use ioc.Core.Confidence.{Confidence, Verdict, Signal, decide}
use ioc.Formats.Parse.{kind_text, tier_text}

-- a value of `map[string]any`, as far as these maps have them
pub data JsonValue (F : Type 0) : Type 0 where
  text : Text → JsonValue F
  number : F → JsonValue F
  whole : ℕ → JsonValue F
  truth : Bool → JsonValue F

abbrev pub Fields : Type 0 → Type 0
Fields F = List (Text × JsonValue F)

-- a field that is there under a condition
abbrev pub field_if : {F : Type 0} → Bool → Text → JsonValue F → Fields F
field_if b key v = if b then (key, v) ∷ [] else []

-- `Meta[key]`, empty where there is none
abbrev pub meta_of : {F : Type 0} → Text → Hit F → Text
meta_of key h = elim (lookup key h.meta) [ none ↦ [] | some t ↦ t ]

-- the code of a verdict, as it is printed
abbrev pub verdict_text : Verdict → Text
verdict_text Verdict.confident = bytes "ok"
verdict_text Verdict.floor_miss = bytes "floor_miss"
verdict_text Verdict.margin_ambiguous = bytes "margin_ambiguous"
verdict_text Verdict.empty = bytes "empty"

abbrev pub signal_text : Signal → Text
signal_text Signal.cosine = bytes "cosine"
signal_text Signal.rerank = bytes "rerank"

-- the printed answer of a query: its fields, and those of each hit under "hits"
pub record Answer (F : Type 0) : Type 0 where
  pub fields : Fields F
  pub hits : List (Fields F)

module _ ⦃ul : Ulids⦄ ⦃f : Floats⦄ where
  abbrev id_field : Text → Ulid → Fields f.Float
  id_field key id = field_if (if is_zero id then false else true) key (JsonValue.text (ul.text id))

  -- `ScopeOut`
  unfoldable pub scope_out : Scope → Fields f.Float
  unfolding role_text
  scope_out s =
      (bytes "id", JsonValue.text (ul.text s.id))
      ∷ (bytes "role", JsonValue.text (role_text s.role))
      ∷ (bytes "title", JsonValue.text s.title)
      ∷ (bytes "version", JsonValue.whole s.version)
      ∷ (bytes "archived", JsonValue.truth s.archived)
      ∷ (id_field (bytes "parent") s.parent ++ id_field (bytes "forked_from") s.forked_from)

  -- `ArtifactOut`
  unfoldable pub artifact_out : Artifact → Fields f.Float
  unfolding kind_text tier_text
  artifact_out a =
      (bytes "id", JsonValue.text (ul.text a.id))
      ∷ (bytes "scope", JsonValue.text (ul.text a.scope))
      ∷ (bytes "kind", JsonValue.text (kind_text a.kind))
      ∷ (bytes "tier", JsonValue.text (tier_text a.tier))
      ∷ (bytes "published", JsonValue.truth a.published)
      ∷ []

  abbrev rerank_field : Option f.Float → Fields f.Float
  rerank_field none = []
  rerank_field (some r) = (bytes "rerank_score", JsonValue.number r) ∷ []

  abbrev unless_empty : Text → Text → Fields f.Float
  unless_empty key t = field_if (if is_empty t then false else true) key (JsonValue.text t)

  -- `HitOut`
  unfoldable pub hit_out : Hit f.Float → Fields f.Float
  unfolding kind_text tier_text lookup
  hit_out h =
      (bytes "artifact", JsonValue.text (ul.text h.artifact))
      ∷ (bytes "scope_path", JsonValue.text h.scope_path)
      ∷ (bytes "kind", JsonValue.text (kind_text h.kind))
      ∷ (bytes "tier", JsonValue.text (tier_text h.tier))
      ∷ (bytes "summary", JsonValue.text h.summary)
      ∷ (bytes "score", JsonValue.number h.score)
      ∷ (rerank_field h.rerank_score
          ++ (id_field (bytes "superseded_by") h.superseded_by
              ++ (unless_empty (bytes "path") (meta_of (bytes "path") h)
                  ++ (unless_empty (bytes "lines") (meta_of (bytes "lines") h)
                      ++ (unless_empty (bytes "trust") (meta_of trust_key h)
                          ++ unless_empty (bytes "content") h.content)))))

  -- `HitsOut`
  unfoldable pub hits_out : List (Hit f.Float) → List (Fields f.Float)
  unfolding hit_out
  hits_out hits = map hit_out hits

  abbrev pub is_ingested : Hit f.Float → Bool
  is_ingested h = text_eq (meta_of trust_key h) trust_ingested

  -- `QueryOut`
  unfoldable pub query_out : Ulid → List (Hit f.Float) → Confidence f.Float → Answer f.Float
  unfolding decide hits_out any text_eq lookup
  query_out query_id hits conf =
      let d = decide hits conf in
      record {
        fields =
            (bytes "query_id", JsonValue.text (ul.text query_id))
            ∷ (bytes "ranked_by", JsonValue.text (signal_text d.ranked_by))
            ∷ (bytes "confidence", JsonValue.text (verdict_text d.confidence))
            ∷ (bytes "calibrated", JsonValue.truth conf.calibrated)
            ∷ (bytes "weak_match", JsonValue.truth d.weak_match)
            ∷ (bytes "top_score", JsonValue.number d.top_score)
            ∷ (bytes "margin", JsonValue.number d.margin)
            ∷ field_if (any is_ingested hits) (bytes "untrusted_content") (JsonValue.truth true);
        hits = hits_out hits;
      }

  -- the field of that name is there
  abbrev pub has_field : Text → Fields f.Float → Bool
  has_field key fs = any (λ e. text_eq e.0 key) fs

  -- The printed answer warns of untrusted content exactly when a hit comes from ingested content.
  pub query_out-untrusted :
      (query_id : Ulid) (hits : List (Hit f.Float)) (conf : Confidence f.Float)
      → has_field (bytes "untrusted_content") (query_out query_id hits conf).fields
        ≡ any is_ingested hits
  unfolding query_out any text_eq
  query_out-untrusted query_id hits conf = elim (Bool-cases (any is_ingested hits)) [
    | inl t ↦ rw t refl
    | inr n ↦ rw n refl
  ]
