-- ===== src/Search.antt =====
-- internal/search: the cosine search of brute.go, and the lexical search and the fusion of bm25.go.
pub mod Sorting
pub mod Top
use ioc.Base.{
  ℕ, zero, suc, ◌+◌, Bool, true, false, not, ◌&&◌, ◌||◌, List, [], ◌∷◌, ◌++◌, Text, ◌==◌, leb, ltb,
  text_eq, text_lt, length, take, map, runes, join_runes, if◌then◌else◌, any, filter, text_eq,
}
use ioc.Core.Floats.{Floats}

-- `Result`, one hit
pub record Ranked (F : Type 0) : Type 0 where
  pub id : Text
  pub score : F

-- `sort.SliceStable`: an insertion sort
module _ {A : Type 0} (less : A → A → Bool) where
  unfoldable pub insert : A → List A → List A
  insert x [] = x ∷ []
  insert x (y ∷ ys) = let rest = insert x ys in if less y x then y ∷ rest else x ∷ y ∷ ys

  unfoldable pub sort_stable : List A → List A
  unfolding insert
  sort_stable [] = []
  sort_stable (x ∷ xs) = insert x (sort_stable xs)

-- `if len(results) > topK { results = results[:topK] }`
abbrev pub cut {ℓ} : {A : Type ℓ} → ℕ → List A → List A
cut top_k xs = if ltb top_k (length xs) then take top_k xs else xs

-- unicode's tables: `strings.ToLower`, and `unicode.IsLetter` or `unicode.IsDigit` of a code point
pub record Unicode : Type 0 where
  pub to_lower : Text → Text
  pub is_letter : Text → Bool
  pub is_digit : Text → Bool

module _ ⦃f : Floats⦄ where
  -- the comparison of both searches: by score, then by identifier
  unfoldable pub before : Ranked f.Float → Ranked f.Float → Bool
  unfolding text_lt
  before x y = if not (f.eq x.score y.score) then f.lt y.score x.score else text_lt x.id y.id

  -- the loop of `dot`
  unfoldable pub dot_loop : f.Float → List ℕ → List ℕ → f.Float
  dot_loop sum (a ∷ as') (b ∷ bs) =
      dot_loop (f.add sum (f.mul (f.of_float32 a) (f.of_float32 b))) as' bs
  dot_loop sum _ _ = sum

  -- `dot`
  unfoldable pub dot : List ℕ → List ℕ → f.Float
  unfolding dot_loop
  dot a b = if length a == length b then dot_loop (f.decimal 0 0) a b else f.decimal 0 0

  -- `Set`: what `Add` has put in, in order
  abbrev scored : List ℕ → Text × List ℕ → Ranked f.Float
  scored query e = record { id = e.0; score = dot query e.1 }

  unfoldable pub score_all : List ℕ → List (Text × List ℕ) → List (Ranked f.Float)
  unfolding dot
  score_all query set = map (scored query) set

  -- `Set.Search`
  unfoldable pub search : List ℕ → ℕ → List (Text × List ℕ) → List (Ranked f.Float)
  unfolding score_all sort_stable before
  search query top_k set =
      if top_k == 0 then [] else cut top_k (sort_stable before (score_all query set))

-- the fields of a text at the code points that are neither letter nor digit
abbrev close : Text → List Text → List Text
close [] ts = ts
close (c ∷ w) ts = (c ∷ w) ∷ ts

module _ ⦃u : Unicode⦄ where
  -- the word so far, and the words before it in reverse
  fields : List Text → Text → List Text
  fields [] word = close word []
  fields (r ∷ rs) word =
      let split = close word (fields rs []) in
      let on = fields rs (word ++ r) in
      if not (u.is_letter r) && not (u.is_digit r) then split else on

  -- `bmTokenize`
  unfoldable pub bm_tokenize : Text → List Text
  unfolding fields runes
  bm_tokenize s = fields (runes (u.to_lower s)) []

-- `tf[t]`
unfoldable pub count_of : Text → List Text → ℕ
count_of t [] = 0
count_of t (w ∷ ws) = let rest = count_of t ws in if text_eq w t then suc rest else rest

-- `BM25`: the documents by identifier and tokens; `df`, `docLen` and `totalN` are counts over them
pub record Bm25 (F : Type 0) : Type 0 where
  pub docs : List (Text × List Text)
  pub avg_len : F

unfoldable pub df_of : Text → List (Text × List Text) → ℕ
unfolding any
df_of t [] = 0
df_of t (e ∷ es) = let rest = df_of t es in if any (λ w. text_eq w t) e.1 then suc rest else rest

unfoldable pub total_len : List (Text × List Text) → ℕ
total_len [] = 0
total_len (e ∷ es) = length e.1 + total_len es

module _ ⦃f : Floats⦄ ⦃u : Unicode⦄ where
  -- `NewBM25`
  abbrev pub new_bm25 : Bm25 f.Float
  new_bm25 = record { docs = []; avg_len = f.decimal 0 0 }

  -- `BM25.Add`
  unfoldable pub bm_add : Text → Text → Bm25 f.Float → Bm25 f.Float
  unfolding bm_tokenize
  bm_add id text idx = record idx { docs = idx.docs ++ ((id, bm_tokenize text) ∷ []) }

  -- 1 - b + b * dl / avgLen, with b = 0.75
  abbrev length_norm : f.Float → f.Float → f.Float
  length_norm dl avg =
      f.add (f.sub (f.decimal 1 0) (f.decimal 75 2)) (f.div (f.mul (f.decimal 75 2) dl) avg)

  abbrev idf : ℕ → ℕ → f.Float
  idf n df =
      let d = f.add (f.of_int df) (f.decimal 5 1) in
      f.log
        (f.add (f.decimal 1 0) (f.div (f.add (f.sub (f.of_int n) (f.of_int df)) (f.decimal 5 1)) d))

  -- the term of one query token, with k1 = 1.2
  abbrev bm_term : Bm25 f.Float → List Text → Text → f.Float
  bm_term idx doc q =
      let tf = f.of_int (count_of q doc) in
      f.div
        (f.mul (idf (length idx.docs) (df_of q idx.docs))
          (f.mul tf (f.add (f.decimal 12 1) (f.decimal 1 0))))
        (f.add tf (f.mul (f.decimal 12 1) (length_norm (f.of_int (length doc)) idx.avg_len)))

  -- the loop of `score`
  unfoldable pub bm_score : Bm25 f.Float → List Text → f.Float → List Text → f.Float
  unfolding count_of df_of
  bm_score idx doc sum [] = sum
  bm_score idx doc sum (q ∷ qs) =
      bm_score idx doc
        (if f.eq (f.of_int (count_of q doc)) (f.decimal 0 0)
          then sum
          else f.add sum (bm_term idx doc q))
        qs

  abbrev with_avg : Bm25 f.Float → Bm25 f.Float
  with_avg idx =
      if f.eq idx.avg_len (f.decimal 0 0)
      then record idx {
        avg_len = f.div (f.of_int (total_len idx.docs)) (f.of_int (length idx.docs));
      }
      else idx

  abbrev bm_scored : Bm25 f.Float → List Text → Text × List Text → Ranked f.Float
  bm_scored idx qs e = record { id = e.0; score = bm_score idx e.1 (f.decimal 0 0) qs }

  -- `BM25.Search`
  unfoldable pub bm_search : Text → ℕ → Bm25 f.Float → List (Ranked f.Float)
  unfolding bm_score bm_tokenize total_len sort_stable before
  bm_search query top_k idx =
      if length idx.docs == 0 || top_k == 0
      then []
      else let ready = with_avg idx in
        cut top_k (sort_stable before (map (bm_scored ready (bm_tokenize query)) ready.docs))

module _ ⦃f : Floats⦄ where
  -- `fused[r.ID] += 1.0 / float64(k+rank+1)`
  unfoldable pub fuse : Text → f.Float → List (Ranked f.Float) → List (Ranked f.Float)
  fuse id x [] = record { id = id; score = f.add (f.decimal 0 0) x } ∷ []
  fuse id x (r ∷ rs) =
      let rest = fuse id x rs in
      if text_eq r.id id then record r { score = f.add r.score x } ∷ rs else r ∷ rest

  unfoldable pub fuse_list :
      ℕ → ℕ → List (Ranked f.Float) → List (Ranked f.Float) → List (Ranked f.Float)
  unfolding fuse
  fuse_list k rank [] acc = acc
  fuse_list k rank (r ∷ rs) acc =
      fuse_list k (suc rank) rs (fuse r.id (f.div (f.decimal 1 0) (f.of_int (k + rank + 1))) acc)

  -- `RRF` of two lists
  unfoldable pub rrf : ℕ → List (Ranked f.Float) → List (Ranked f.Float) → List (Ranked f.Float)
  unfolding fuse_list sort_stable before
  rrf k xs ys =
      let k' = if k == 0 then 60 else k in
      sort_stable before (fuse_list k' 0 ys (fuse_list k' 0 xs []))
