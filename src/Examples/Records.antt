-- ===== src/Examples/Records.antt =====
-- Formats of the stored records, with numbers for float64.
use ioc.Base.{ℕ, Text, refl}
use ioc.Core.Types.{Scope, Artifact, Edge, Hit, TraceRecord}
use ioc.Examples.Formats.{Format, number, ◌⊗◌, through, truth, many, maybe}

abbrev text : Format Text
text = many number

abbrev pub scope : Format (Scope)
scope =
    through
      (λ p. record {
        id = p.0;
        parent = p.1.0;
        role = p.1.1.0;
        title = p.1.1.1.0;
        version = p.1.1.1.1.0;
        seed_from = p.1.1.1.1.1.0;
        archived = p.1.1.1.1.1.1.0;
        forked_from = p.1.1.1.1.1.1.1.0;
        created_at = p.1.1.1.1.1.1.1.1.0;
        rollup_summary = p.1.1.1.1.1.1.1.1.1.0;
        rollup_emb_ref = p.1.1.1.1.1.1.1.1.1.1;
      })
      (λ x. (
        x.id,
        (
          x.parent,
          (
            x.role,
            (
              x.title,
              (
                x.version,
                (
                  x.seed_from,
                  (
                    x.archived,
                    (x.forked_from, (x.created_at, (x.rollup_summary, x.rollup_emb_ref))),
                  ),
                ),
              ),
            ),
          ),
        ),
      ))
      (λ x. refl)
      (number ⊗ number ⊗ number ⊗ text ⊗ number ⊗ number ⊗ truth ⊗ number ⊗ number ⊗ text ⊗ number)

abbrev pub artifact : Format (Artifact)
artifact =
    through
      (λ p. record {
        id = p.0;
        scope = p.1.0;
        kind = p.1.1.0;
        tier = p.1.1.1.0;
        summary = p.1.1.1.1.0;
        emb_ref = p.1.1.1.1.1.0;
        content = p.1.1.1.1.1.1.0;
        derived_from = p.1.1.1.1.1.1.1.0;
        published = p.1.1.1.1.1.1.1.1.0;
        meta = p.1.1.1.1.1.1.1.1.1.0;
        created_at = p.1.1.1.1.1.1.1.1.1.1.0;
        superseded_by = p.1.1.1.1.1.1.1.1.1.1.1;
      })
      (λ x. (
        x.id,
        (
          x.scope,
          (
            x.kind,
            (
              x.tier,
              (
                x.summary,
                (
                  x.emb_ref,
                  (
                    x.content,
                    (x.derived_from, (x.published, (x.meta, (x.created_at, x.superseded_by)))),
                  ),
                ),
              ),
            ),
          ),
        ),
      ))
      (λ x. refl)
      (number
        ⊗ number
        ⊗ number
        ⊗ number
        ⊗ text
        ⊗ number
        ⊗ text
        ⊗ (many number)
        ⊗ truth
        ⊗ (many (text ⊗ text))
        ⊗ number
        ⊗ number)

abbrev pub edge : Format (Edge)
edge =
    through (λ p. record { from = p.0; to = p.1.0; kind = p.1.1.0; created_at = p.1.1.1 })
      (λ x. (x.from, (x.to, (x.kind, x.created_at)))) (λ x. refl) (number ⊗ number ⊗ text ⊗ number)

abbrev pub hit : Format (Hit ℕ)
hit =
    through
      (λ p. record {
        artifact = p.0;
        scope = p.1.0;
        scope_path = p.1.1.0;
        kind = p.1.1.1.0;
        tier = p.1.1.1.1.0;
        summary = p.1.1.1.1.1.0;
        score = p.1.1.1.1.1.1.0;
        rerank_score = p.1.1.1.1.1.1.1.0;
        meta = p.1.1.1.1.1.1.1.1.0;
        content = p.1.1.1.1.1.1.1.1.1.0;
        superseded_by = p.1.1.1.1.1.1.1.1.1.1;
      })
      (λ x. (
        x.artifact,
        (
          x.scope,
          (
            x.scope_path,
            (
              x.kind,
              (
                x.tier,
                (x.summary, (x.score, (x.rerank_score, (x.meta, (x.content, x.superseded_by))))),
              ),
            ),
          ),
        ),
      ))
      (λ x. refl)
      (number
        ⊗ number
        ⊗ text
        ⊗ number
        ⊗ number
        ⊗ text
        ⊗ number
        ⊗ (maybe number)
        ⊗ (many (text ⊗ text))
        ⊗ text
        ⊗ number)

abbrev pub trace : Format (TraceRecord ℕ)
trace =
    through
      (λ p. record {
        query_id = p.0;
        scope = p.1.0;
        text = p.1.1.0;
        emb_model = p.1.1.1.0;
        visible_set = p.1.1.1.1.0;
        hits = p.1.1.1.1.1.0;
        drills = p.1.1.1.1.1.1.0;
        created_at = p.1.1.1.1.1.1.1;
      })
      (λ x. (
        x.query_id,
        (x.scope, (x.text, (x.emb_model, (x.visible_set, (x.hits, (x.drills, x.created_at)))))),
      ))
      (λ x. refl)
      (number ⊗ number ⊗ text ⊗ text ⊗ (many number) ⊗ (many hit) ⊗ (many number) ⊗ number)
