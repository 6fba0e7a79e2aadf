-- ===== src/Runtime/Json/Depth.antt =====
-- internal/runtime/dispatch.go: the walk over the tokens counts the nesting of a value.
use Prim.Native.Nat.{max}
use ioc.Base.{
  ℕ, suc, ◌+◌, ◌≤◌, Bool, true, false, List, [], ◌∷◌, ◌++◌, Text, ltb, leb, ◌≡◌, refl, ok, err,
  invalid_input, inl, inr, Bool-cases, arith, if◌then◌else◌, append_assoc, append-nil,
}
use ioc.Runtime.Json.{Token, opening, closing, atom, Decoder, depth_loop, check_json_depth}

-- JSON values, with the keys of an object left out
mutual
  pub data Value : Type 0 where
    scalar : Value
    array : Values → Value
    object : Values → Value

  pub data Values : Type 0 where
    nil : Values
    cons : Value → Values → Values

-- the nesting of arrays and objects
unfoldable mutual
  pub nesting : Value → ℕ
  nesting scalar = 0
  nesting (array vs) = suc (nesting_all vs)
  nesting (object vs) = suc (nesting_all vs)

  pub nesting_all : Values → ℕ
  nesting_all nil = 0
  nesting_all (cons v vs) = max (nesting v) (nesting_all vs)

-- the tokens of a value; a key stands before each value of an object
unfoldable mutual
  pub tokens_of : Value → List Token
  tokens_of scalar = atom ∷ []
  tokens_of (array vs) = opening ∷ (items_of vs ++ (closing ∷ []))
  tokens_of (object vs) = opening ∷ (fields_of vs ++ (closing ∷ []))

  pub items_of : Values → List Token
  items_of nil = []
  items_of (cons v vs) = tokens_of v ++ items_of vs

  pub fields_of : Values → List Token
  fields_of nil = []
  fields_of (cons v vs) = atom ∷ (tokens_of v ++ fields_of vs)

-- the walk goes on behind what fits, and stops at what does not
abbrev Walks : ℕ → ℕ → Bool → List Token → ℕ → Type 0
Walks m d eof ts n =
    (rest : List Token)
    → depth_loop m d (ts ++ rest) eof
      ≡ (if leb (d + n) m then depth_loop m d rest eof else err invalid_input)

Walks-append :
    (m d : ℕ) (eof : Bool) (ts us : List Token) (a b : ℕ)
    → Walks m d eof ts a
    → Walks m d eof us b
    → Walks m d eof (ts ++ us) (max a b)
Walks-append m d eof ts us a b f g rest =
    rw (append_assoc ts us rest, f (us ++ rest), g rest) (ground arith)

Walks-nest :
    (m d : ℕ) (eof : Bool) (ts : List Token) (a : ℕ)
    → d ≤ m
    → (suc d ≤ m → Walks m (suc d) eof ts a)
    → Walks m d eof (opening ∷ (ts ++ (closing ∷ []))) (suc a)
unfolding depth_loop
Walks-nest m d eof ts a h f rest = elim (Bool-cases (ltb m (suc d))) [
  | inl deep ↦ let no : leb (d + suc a) m ≡ false = ground (arith, deep) in rw (deep, no) refl
  | inr fits ↦
      rw (fits, append_assoc ts (closing ∷ []) rest, f (ground (arith, fits)) (closing ∷ rest))
        (ground arith)
]

mutual
  unfolding nesting nesting_all tokens_of items_of fields_of depth_loop

  Walks-tokens_of :
      (v : Value) (m d : ℕ) (eof : Bool) → d ≤ m → Walks m d eof (tokens_of v) (nesting v)
  Walks-tokens_of scalar m d eof h = λ rest. ground arith
  Walks-tokens_of (array vs) m d eof h =
      Walks-nest m d eof (items_of vs) (nesting_all vs) h (Walks-items_of vs m (suc d) eof)
  Walks-tokens_of (object vs) m d eof h =
      Walks-nest m d eof (fields_of vs) (nesting_all vs) h (Walks-fields_of vs m (suc d) eof)

  Walks-items_of :
      (vs : Values) (m d : ℕ) (eof : Bool) → d ≤ m → Walks m d eof (items_of vs) (nesting_all vs)
  Walks-items_of nil m d eof h = λ rest. ground arith
  Walks-items_of (cons v vs) m d eof h =
      Walks-append m d eof (tokens_of v) (items_of vs) (nesting v) (nesting_all vs)
        (Walks-tokens_of v m d eof h) (Walks-items_of vs m d eof h)

  Walks-fields_of :
      (vs : Values) (m d : ℕ) (eof : Bool) → d ≤ m → Walks m d eof (fields_of vs) (nesting_all vs)
  Walks-fields_of nil m d eof h = λ rest. ground arith
  Walks-fields_of (cons v vs) m d eof h =
      Walks-append m d eof (tokens_of v) (fields_of vs) (nesting v) (nesting_all vs)
        (Walks-tokens_of v m d eof h) (Walks-fields_of vs m d eof h)

module _ ⦃j : Decoder⦄ where
  -- On the tokens of one value and the end of the text, the check passes exactly the values whose
  -- arrays and objects are nested at most as deep as the bound, and refuses the others.
  pub check_json_depth-nesting :
      (raw : Text) (v : Value) (bound : ℕ)
      → j.tokens raw ≡ (tokens_of v, true)
      → check_json_depth raw bound ≡ (if leb (nesting v) bound then ok tt else err invalid_input)
  unfolding check_json_depth depth_loop
  check_json_depth-nesting raw v bound h =
      let walk = Walks-tokens_of v bound 0 true (omega arith) [] in
      let zero_add : 0 + nesting v ≡ nesting v = omega arith in
      rw (check_json_depth, h) (rw (append-nil (tokens_of v), zero_add) at walk)
