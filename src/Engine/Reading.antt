-- ===== src/Engine/Reading.antt =====
-- internal/engine/query.go: buildHit, Drill, SiblingOverview; relations.go: Related.
pub mod Walks
use ioc.Base.{
  ℕ, zero, suc, Bool, true, false, not, ◌&&◌, ◌||◌, List, [], ◌∷◌, ◌++◌, Text, is_empty, ◌==◌, leb,
  any, text_eq, length, map, reverse, bytes, none, Result, ok, err, and_then, if◌then◌else◌,
}
use ioc.Core.Types.{
  Ulid, is_zero, Scope, Artifact, Edge, Hit, role_text, detail_overview, detail_raw, dir_out,
  dir_in, dir_both,
}
use ioc.Storage.Bolt.{scopes}
use ioc.Storage.Meta.{MetaEnv, get_artifact, artifacts_in_scope, edges_from, edges_to}
use ioc.Storage.Interfaces.{Blobs, Vectors}
use ioc.Engine.State.{Engine}
use ioc.Engine.Visibility.{ancestor_loop, siblings_of}

-- `strings.Join(parts, "/")`
abbrev join_path : List Text → Text
join_path [] = []
join_path (l ∷ []) = l
join_path (l ∷ k ∷ ls) = l ++ (bytes "/" ++ join_path (k ∷ ls))

unfoldable pub scope_label : Scope → Text
scope_label s = if is_empty s.title then role_text s.role else s.title

-- `kindOK`: an empty filter lets every kind through
unfoldable pub kind_ok : List Text → Text → Bool
kind_ok [] k = true
kind_ok (w ∷ ws) k = any (λ want. text_eq want k) (w ∷ ws)

-- the state of the walk: `visited`, `order`, and the frontier
pub record Walk : Type 0 where
  pub visited : List Ulid
  pub order : List Ulid
  pub next : List Ulid

abbrev pub neighbour : Ulid → Edge → Ulid
neighbour cur ed = if ed.from == cur then ed.to else ed.from

-- one edge at `cur`
unfoldable pub visit : List Text → Ulid → Walk → Edge → Walk
unfolding kind_ok
visit kinds cur w ed =
    let nb = neighbour cur ed in
    if not (kind_ok kinds ed.kind) then w else if any (λ k. k == nb) w.visited then w else record {
      visited = nb ∷ w.visited;
      order = w.order ++ (nb ∷ []);
      next = w.next ++ (nb ∷ []);
    }

unfoldable pub visit_all : List Text → Ulid → Walk → List Edge → Walk
visit_all kinds cur w [] = w
visit_all kinds cur w (ed ∷ es) = visit_all kinds cur (visit kinds cur w ed) es

abbrev pub first_walk : Ulid → Walk
first_walk artifact = record { visited = artifact ∷ []; order = []; next = artifact ∷ [] }

module _ ⦃m : MetaEnv⦄ where
  -- `scopePath`: the walk of `ancestorsOf`, begun at the scope itself
  unfoldable pub scope_path : Ulid → m.bolt.Db → Text
  unfolding ancestor_loop scope_label
  scope_path scope d =
      elim (ancestor_loop (suc (suc (length (m.bolt.for_each d scopes)))) [] scope d) [
        | ok line ↦ join_path (reverse (map scope_label line))
        | err e ↦ []
      ]

  -- the edges at `cur` in the directions asked for
  unfoldable pub edges_at : ℕ → Ulid → m.bolt.Db → Result (List Edge)
  edges_at dir cur d =
      and_then (if dir == dir_out || dir == dir_both then edges_from cur d else ok []) λ outgoing.
        and_then (if dir == dir_in || dir == dir_both then edges_to cur d else ok [])
          λ incoming. ok (outgoing ++ incoming)

  -- one level: the loop over the frontier
  unfoldable pub walk_level : List Text → ℕ → List Ulid → Walk → m.bolt.Db → Result Walk
  unfolding visit_all
  walk_level kinds dir [] w d = ok w
  walk_level kinds dir (cur ∷ frontier) w d =
      and_then (edges_at dir cur d)
        (λ es. walk_level kinds dir frontier (visit_all kinds cur w es) d)

  -- the loop over the levels; an empty frontier adds nothing in those that are left
  unfoldable pub walk : ℕ → List Text → ℕ → Walk → m.bolt.Db → Result Walk
  unfolding walk_level
  walk zero kinds dir w d = ok w
  walk (suc depth) kinds dir w d =
      and_then (walk_level kinds dir w.next (record w { next = [] }) d)
        (λ w'. walk depth kinds dir w' d)

module _ ⦃m : MetaEnv⦄ ⦃b : Blobs⦄ ⦃v : Vectors⦄ where
  abbrev pub hit_of : Artifact → m.floats.Float → Text → Text → Hit m.floats.Float
  hit_of a score path content = record {
    artifact = a.id;
    scope = a.scope;
    scope_path = path;
    kind = a.kind;
    tier = a.tier;
    summary = a.summary;
    score = score;
    rerank_score = none;
    meta = a.meta;
    content = content;
    superseded_by = a.superseded_by;
  }

  -- `buildHit`
  unfoldable pub build_hit : Artifact → m.floats.Float → ℕ → Engine → Result (Hit m.floats.Float)
  unfolding scope_path
  build_hit a score detail s =
      let path = scope_path a.scope s.db in
      if leb detail_raw detail && not (is_empty a.content)
      then and_then (b.load a.content s.blobs) (λ content. ok (hit_of a score path content))
      else ok (hit_of a score path [])

  -- `Drill`
  unfoldable pub drill : Ulid → ℕ → Engine → Result (Hit m.floats.Float)
  unfolding build_hit
  drill id to s = and_then (get_artifact id s.db) (λ a. build_hit a (m.floats.decimal 0 0) to s)

  -- the hits of `SiblingOverview`, artifact by artifact
  unfoldable pub overview_hits : List Artifact → Engine → Result (List (Hit m.floats.Float))
  unfolding build_hit
  overview_hits [] s = ok []
  overview_hits (a ∷ as') s =
      let rest = overview_hits as' s in
      if not a.published
      then rest
      else and_then (build_hit a (m.floats.decimal 0 0) detail_overview s)
          (λ h. and_then rest (λ hs. ok (h ∷ hs)))

  unfoldable pub overview_scopes : List Scope → Engine → Result (List (Hit m.floats.Float))
  unfolding overview_hits
  overview_scopes [] s = ok []
  overview_scopes (sc ∷ scs) s =
      let rest = overview_scopes scs s in
      and_then (artifacts_in_scope sc.id s.db)
        (λ as'. and_then (overview_hits as' s) (λ hs. and_then rest (λ more. ok (hs ++ more))))

  -- `SiblingOverview`
  unfoldable pub sibling_overview : Ulid → Engine → Result (List (Hit m.floats.Float))
  unfolding overview_scopes
  sibling_overview scope s = and_then (siblings_of scope s.db) (λ sibs. overview_scopes sibs s)

  -- an identifier that does not read gives no hit, nor does a superseded artifact
  abbrev pub related_hit :
      Result Artifact
      → Result (List (Hit m.floats.Float))
      → Engine
      → Result (List (Hit m.floats.Float))
  related_hit (err e) rest s = rest
  related_hit (ok a) rest s =
      if not (is_zero a.superseded_by)
      then rest
      else and_then (build_hit a (m.floats.decimal 0 0) detail_overview s)
          (λ h. and_then rest (λ hs. ok (h ∷ hs)))

  unfoldable pub related_hits : List Ulid → Engine → Result (List (Hit m.floats.Float))
  unfolding build_hit
  related_hits [] s = ok []
  related_hits (id ∷ ids) s = related_hit (get_artifact id s.db) (related_hits ids s) s

  -- `Related`
  unfoldable pub related : Ulid → List Text → ℕ → ℕ → Engine → Result (List (Hit m.floats.Float))
  unfolding walk related_hits
  related artifact kinds dir depth s = and_then (get_artifact artifact s.db) λ a.
      and_then (walk (if depth == 0 then 1 else depth) kinds dir (first_walk artifact) s.db)
        λ w. related_hits w.order s
