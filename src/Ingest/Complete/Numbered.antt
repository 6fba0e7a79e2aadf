-- ===== src/Ingest/Complete/Numbered.antt =====
-- internal/ingest/reconcile.go: chunks that are numbered from zero pass for complete.
use ioc.Base.{
  ℕ, zero, suc, ◌+◌, ◌-◌, ◌*◌, ◌/◌, ◌%◌, ◌≤◌, ◌<◌, true, false, List, [], ◌∷◌, Text, some, ◌≡◌,
  refl, ap, ◌∙◌, inl, inr, any, length, leb, ◌==◌, ==_refl, Bool-cases, arith, itoa, itoa_onto,
}
use ioc.Core.Types.{Artifact}
use ioc.Ingest.Complete.{
  atoi_digits, atoi_index, chunk_index, has_sig, complete_from, chunks_complete,
}

digit_step :
    (m d : ℕ) (tail : Text)
    → d < 10
    → atoi_digits m ((48 + d) ∷ tail) ≡ atoi_digits (m * 10 + d) tail
unfolding atoi_digits
digit_step m d tail h =
    let low : leb 48 (48 + d) ≡ true = ground arith in
    let high : leb (48 + d) 57 ≡ true = ground (arith, h) in
    let value : m * 10 + (48 + d - 48) ≡ m * 10 + d = omega arith in rw (low, high, value) refl

-- the digits of a number, written before a text
itoa_onto-digits :
    (fuel n : ℕ) (tail : Text)
    → n < fuel
    → (atoi_digits 0 (itoa_onto fuel n tail) ≡ atoi_digits n tail)
      × (c : ℕ) × (s : Text) × (itoa_onto fuel n tail ≡ c ∷ s)
      × (48 ≤ c)
unfolding itoa_onto atoi_digits
itoa_onto-digits zero n tail h = absurd (omega (arith, h))
itoa_onto-digits (suc fuel) n tail h = elim (Bool-cases (n / 10 == 0)) [
  | inl last ↦
      let whole : 0 * 10 + n % 10 ≡ n = ground (arith, last) in
      (
        rw last (digit_step 0 (n % 10) tail (omega arith) ∙ ap (λ k. atoi_digits k tail) whole),
        48 + n % 10,
        tail,
        rw last refl,
        omega arith,
      )
  | inr more ↦
      let (ih, c, s, e, d) =
        itoa_onto-digits fuel (n / 10) ((48 + n % 10) ∷ tail) (ground (arith, h, more)) in
      let whole : n / 10 * 10 + n % 10 ≡ n = omega arith in
      (
        rw more (
            ih
            ∙ digit_step (n / 10) (n % 10) tail (omega arith)
            ∙ ap (λ k. atoi_digits k tail) whole),
        c,
        s,
        rw (more, e) refl,
        d,
      )
]

-- `strconv.Atoi` reads the index that was written.
pub atoi_index-itoa : (n : ℕ) → atoi_index (itoa n) ≡ some n
unfolding atoi_index itoa atoi_digits
atoi_index-itoa n =
    let (value, c, s, e, d) = itoa_onto-digits (suc n) n [] (omega arith) in
    let minus : (c == 45) ≡ false = ground (arith, d) in
    let plus : (c == 43) ≡ false = ground (arith, d) in
    rw (atoi_index, e, minus, plus) (rw e at value)

-- the chunks carry the signature, and indices that count up
abbrev pub Numbered : Text → ℕ → List Artifact → Type 0
Numbered sig i [] = Unit
Numbered sig i (a ∷ as') =
    (has_sig sig a ≡ true) × (chunk_index a ≡ some i) × Numbered sig (suc i) as'

not_seen :
    (i : ℕ) (seen : List ℕ) → any (λ k. leb i k) seen ≡ false → any (λ k. k == i) seen ≡ false
unfolding any
not_seen i [] h = refl
not_seen i (k ∷ ks) h = ground (arith, h, not_seen i ks)

below_next :
    (i : ℕ) (seen : List ℕ)
    → any (λ k. leb i k) seen ≡ false
    → any (λ k. leb (suc i) k) seen ≡ false
unfolding any
below_next i [] h = refl
below_next i (k ∷ ks) h = ground (arith, h, below_next i ks)

seen_below :
    (i : ℕ) (seen : List ℕ)
    → any (λ k. leb i k) seen ≡ false
    → any (λ k. leb (suc i) k) (i ∷ seen) ≡ false
unfolding any
seen_below i seen h = ground (arith, below_next i seen h)

complete_from-Numbered :
    (sig : Text) (n i : ℕ) (seen : List ℕ) (as' : List Artifact)
    → any (λ k. leb i k) seen ≡ false
    → i + length as' ≤ n
    → Numbered sig i as'
    → complete_from sig n seen as' ≡ true
unfolding complete_from any
complete_from-Numbered sig n i seen [] low fits h = refl
complete_from-Numbered sig n i seen (a ∷ as') low fits (s, x, h) =
    let within : leb n i ≡ false = ground (arith, fits) in
    let new : any (λ k. k == i) seen ≡ false = not_seen i seen low in
    let next : any (λ k. leb (suc i) k) (i ∷ seen) ≡ false = seen_below i seen low in
    rw (s, x, within, new)
      (complete_from-Numbered sig n (suc i) (i ∷ seen) as' next (omega (arith, fits)) h)

-- Chunks that carry the signature and count up from zero pass for complete.
pub chunks_complete-Numbered :
    (sig : Text) (as' : List Artifact)
    → Numbered sig 0 as'
    → chunks_complete as' sig (length as') ≡ true
unfolding chunks_complete
chunks_complete-Numbered sig as' h = elim (Bool-cases (length as' == 0)) [
  | inl z ↦ rw (==_refl (length as'), z) refl
  | inr p ↦
      rw (==_refl (length as'), p)
        (complete_from-Numbered sig (length as') 0 [] as' refl (omega arith) h)
]
