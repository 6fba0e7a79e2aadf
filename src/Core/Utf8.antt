-- ===== src/Core/Utf8.antt =====
-- internal/core/types.go: the values whose strings are valid UTF-8, which encoding/json keeps as they are.
use ioc.Base.{Bool, true, ◌&&◌, List, [], ◌∷◌, Text, is_utf8}
use ioc.Core.Types.{Artifact, Edge, Hit, TraceRecord}

abbrev pub is_utf8_meta : List (Text × Text) → Bool
is_utf8_meta [] = true
is_utf8_meta ((k, v) ∷ meta) = is_utf8 k && (is_utf8 v && is_utf8_meta meta)

abbrev pub is_utf8_artifact : Artifact → Bool
is_utf8_artifact a = is_utf8 a.summary && is_utf8_meta a.meta

abbrev pub is_utf8_edge : Edge → Bool
is_utf8_edge e = is_utf8 e.kind

abbrev pub is_utf8_hits : {F : Type 0} → List (Hit F) → Bool
is_utf8_hits [] = true
is_utf8_hits (h ∷ hs) =
    is_utf8 h.scope_path && (is_utf8 h.summary && (is_utf8_meta h.meta && is_utf8_hits hs))

abbrev pub is_utf8_trace : {F : Type 0} → TraceRecord F → Bool
is_utf8_trace t = is_utf8 t.text && (is_utf8 t.emb_model && is_utf8_hits t.hits)
