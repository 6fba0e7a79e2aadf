-- ===== src/Examples/Formats.antt =====
-- A format: how a value is written before a text and read back from its front.
use ioc.Base.{
  Bool-cases, inl, inr, subst, if◌then◌else◌, ℕ, zero, suc, Bool, true, false, List, [], ◌∷◌, Text,
  Option, none, some, ◌≡◌, refl, length, Result, ok, err, internal, ok-injective,
}
use ioc.Storage.Meta.{Codec}

pub record Format (A : Type 0) : Type 0 where
  pub write : A → Text → Text
  pub read : Text → Option (A × Text)
  pub read-write : (a : A) (t : Text) → read (write a t) ≡ some (a, t)

abbrev first : Text → Option (ℕ × Text)
first [] = none
first (n ∷ t) = some (n, t)

abbrev pub number : Format ℕ
number = record { write = λ n t. n ∷ t; read = first; read-write = λ n t. refl }

module _ {A B : Type 0} where
  -- read on, with what was read
  abbrev pub read_on : Option (A × Text) → (A → Text → Option B) → Option B
  read_on none f = none
  read_on (some (a, t)) f = f a t

  read_on-write :
      (F : Format A) (a : A) (t : Text) (f : A → Text → Option B)
      → read_on (F.read (F.write a t)) f ≡ f a t
  read_on-write F a t f = rw (F.read-write a t)

module _ {A B : Type 0} where
  infixr 20 ◌⊗◌
  abbrev pub ◌⊗◌ : Format A → Format B → Format (A × B)
  F ⊗ G = record {
    write = λ p t. F.write p.0 (G.write p.1 t);
    read = λ t. read_on (F.read t) (λ a u. read_on (G.read u) (λ b w. some ((a, b), w)));
    read-write = λ p t. rw (F.read-write p.0 (G.write p.1 t), G.read-write p.1 t);
  }

  -- one value in place of another
  abbrev pub through :
      (to : A → B) (from : B → A) → ((b : B) → to (from b) ≡ b) → Format A → Format B
  through to from back F = record {
    write = λ b t. F.write (from b) t;
    read = λ t. read_on (F.read t) (λ a u. some (to a, u));
    read-write = λ b t. rw (F.read-write (from b) t, back b);
  }

abbrev nonzero : ℕ → Bool
nonzero zero = false
nonzero (suc n) = true

abbrev bit : Bool → ℕ
bit true = 1
bit false = 0

pub nonzero-bit : (b : Bool) → nonzero (bit b) ≡ b
nonzero-bit true = refl
nonzero-bit false = refl

abbrev pub truth : Format Bool
truth = through nonzero bit nonzero-bit number

module _ {A : Type 0} where
  abbrev read_n : (Text → Option (A × Text)) → ℕ → Text → Option (List A × Text)
  read_n r zero t = some ([], t)
  read_n r (suc n) t = read_on (r t) (λ a u. read_on (read_n r n u) (λ as' w. some (a ∷ as', w)))

  abbrev write_all : (A → Text → Text) → List A → Text → Text
  write_all w [] t = t
  write_all w (a ∷ as') t = w a (write_all w as' t)

  pub read_n-write_all :
      (F : Format A) (as' : List A) (t : Text)
      → read_n F.read (length as') (write_all F.write as' t) ≡ some (as', t)
  read_n-write_all F [] t = refl
  read_n-write_all F (a ∷ as') t =
      rw (F.read-write a (write_all F.write as' t), read_n-write_all F as' t)

  abbrev pub many : Format A → Format (List A)
  many F = record {
    write = λ as' t. length as' ∷ write_all F.write as' t;
    read = λ t. read_on (first t) (read_n F.read);
    read-write = read_n-write_all F;
  }

  abbrev to_option : Bool × A → Option A
  to_option (true, a) = some a
  to_option (false, a) = none

  abbrev read_maybe : (Text → Option (A × Text)) → ℕ → Text → Option (Option A × Text)
  read_maybe r zero t = some (none, t)
  read_maybe r (suc n) t = read_on (r t) (λ a u. some (some a, u))

  abbrev write_maybe : (A → Text → Text) → Option A → Text → Text
  write_maybe w none t = 0 ∷ t
  write_maybe w (some a) t = 1 ∷ w a t

  pub maybe-lem :
      (F : Format A) (o : Option A) (t : Text)
      → read_on (first (write_maybe F.write o t)) (read_maybe F.read) ≡ some (o, t)
  maybe-lem F none t = refl
  maybe-lem F (some a) t = rw (F.read-write a t)

  abbrev pub maybe : Format A → Format (Option A)
  maybe F = record {
    write = write_maybe F.write;
    read = λ t. read_on (first t) (read_maybe F.read);
    read-write = maybe-lem F;
  }

  abbrev pub value : Option (A × Text) → Result A
  value none = err internal
  value (some (a, t)) = ok a

  pub codec-lem :
      (F : Format A) (a : A) {t : Text} → ok (F.write a []) ≡ ok t → value (F.read t) ≡ ok a
  codec-lem F a e = rw (← ok-injective e, F.read-write a [])

  abbrev pub codec_of : Format A → Codec A
  codec_of F = record {
    marshal = λ a. ok (F.write a []);
    unmarshal = λ t. value (F.read t);
    decoded = λ a. a;
    unmarshal-marshal = codec-lem F;
  }

  -- one that refuses what does not pass a test
  abbrev tested : (A → Bool) → Result A → Result A
  tested test (err e) = err e
  tested test (ok a) = if test a then ok a else err internal

  pub tested-lem :
      (test : A → Bool) (F : Format A) (a : A) {t : Text}
      → (if test a then ok (F.write a []) else err internal) ≡ ok t
      → tested test (value (F.read t)) ≡ ok a
  tested-lem test F a e = elim (Bool-cases (test a)) [
    | inl y ↦ rw (← ok-injective (rw y at e), F.read-write a [], y) refl
    | inr n ↦ let g = rw n at e in cc
  ]

  pub tested-passes :
      (test : A → Bool) (r : Result A) (a : A) → tested test r ≡ ok a → test a ≡ true
  tested-passes test (err e) a h = cc
  tested-passes test (ok x) a h = elim (Bool-cases (test x)) [
    | inl y ↦ subst (λ z. test z ≡ true) (ok-injective (rw y at h)) y
    | inr n ↦ let g = rw n at h in cc
  ]

  abbrev pub tested_codec : (A → Bool) → Format A → Codec A
  tested_codec test F = record {
    marshal = λ a. if test a then ok (F.write a []) else err internal;
    unmarshal = λ t. tested test (value (F.read t));
    decoded = λ a. a;
    unmarshal-marshal = tested-lem test F;
  }
