-- ===== src/Cursor/Sound.antt =====
-- What a step that gives a value took from the input: rules for the steps and their composition.
use mathlib.Core.Path.{subst}
use arrow_abi_doctor.Base.{
  ℕ, ◌+◌, ◌≡◌, refl, sym, ap, ◌∙◌, arith, List, [], ◌++◌, append_assoc, Bool, true, false, Option,
  none, some, length, length-append, Option-cases, inl, inr, if◌then◌else◌,
}
use arrow_abi_doctor.Bytes.{AreBytes}
use arrow_abi_doctor.Status.{AbiError}
use arrow_abi_doctor.Cursor.{AbiCur}
use arrow_abi_doctor.Cursor.Monad.{M, proceed, ◌>>=◌, pure}

-- The cursor went forward over exactly `bs`, and nothing had failed before.
pub record Took (c : AbiCur) (bs : List ℕ) (c' : AbiCur) : Type 0 where
  pub live : c.err ≡ none
  pub bytes : c.rest ≡ bs ++ c'.rest
  pub moved : c'.pos ≡ c.pos + length bs

Took-append :
    (c c' c'' : AbiCur) (xs ys : List ℕ) → Took c xs c' → Took c' ys c'' → Took c (xs ++ ys) c''
Took-append c c' c'' xs ys t u = record {
  live = t.live;
  bytes = t.bytes ∙ ap (λ r. xs ++ r) u.bytes ∙ sym (append_assoc xs ys c''.rest);
  moved = omega (arith, t.moved, u.moved, length-append xs ys);
}

pub proceed-some :
    {S A B : Type 0} (r : Option A × S) (f : A → M S B) {b : B}
    → (proceed r f).0 ≡ some b
    → (a : A) × (r.0 ≡ some a) × (proceed r f ≡ f a r.1)
proceed-some (none, s) f h = cc
proceed-some (some a, s) f h = (a, refl, refl)

module _ {S : Type 0} (cur : S → AbiCur) where
  -- A step leaves bytes for bytes, and a failure that came before it as it is.
  pub record Keeps {A : Type 0} (m : M S A) : Type 0 where
    pub bytes : (s : S) → AreBytes (cur s).rest → AreBytes (cur (m s).1).rest
    pub sticky : (s : S) (e : AbiError) → (cur s).err ≡ some e → (cur (m s).1).err ≡ some e

  -- A value that comes with no failure was read from bytes that `R` relates it to.
  pub record Sound {A : Type 0} (m : M S A) (R : A → List ℕ → Type 0) : Type 0 where
    pub reads :
        (s : S) (a : A)
        → AreBytes (cur s).rest
        → (m s).0 ≡ some a
        → (cur (m s).1).err ≡ none
        → (bs : List ℕ) × Took (cur s) bs (cur (m s).1) × R a bs

  pub Keeps-pure : {A : Type 0} (a : A) → Keeps (pure a)
  Keeps-pure a = record { bytes = λ s h. h; sticky = λ s e h. h }

  pub Keeps-bind :
      {A B : Type 0} (m : M S A) (f : A → M S B)
      → Keeps m
      → ((a : A) → Keeps (f a))
      → Keeps (m >>= f)
  Keeps-bind m f k l = record {
    bytes = λ s h. after_bytes (m s) (k.bytes s h);
    sticky = λ s e h. after_sticky (m s) e (k.sticky s e h);
  }
    where
      after_bytes :
          (r : Option _ × S) → AreBytes (cur r.1).rest → AreBytes (cur (proceed r f).1).rest
      after_bytes (none, s') h = h
      after_bytes (some a, s') h = (l a).bytes s' h

      after_sticky :
          (r : Option _ × S) (e : AbiError)
          → (cur r.1).err ≡ some e
          → (cur (proceed r f).1).err ≡ some e
      after_sticky (none, s') e h = h
      after_sticky (some a, s') e h = (l a).sticky s' e h

  pub Sound-pure : {A : Type 0} (a : A) (R : A → List ℕ → Type 0) → R a [] → Sound (pure a) R
  Sound-pure a R h = record {
    reads = λ s a' _ e live.
        let same : a ≡ a' = cc in
        ([], record { live = live; bytes = refl; moved = omega arith }, subst (λ x. R x []) same h);
  }

  pub Sound-bind :
      {A B : Type 0} {m : M S A} {f : A → M S B} {P : A → List ℕ → Type 0} {R : B → List ℕ → Type 0}
      → Keeps m
      → ((a : A) → Keeps (f a))
      → Sound m P
      → ((a : A) (xs : List ℕ) → P a xs → Sound (f a) (λ b ys. R b (xs ++ ys)))
      → Sound (m >>= f) R
  Sound-bind {m} {f} k l u v = record {
    reads = λ s b ab h e.
        let (a, p, q) = proceed-some (m s) f h in
        let s' : S = (m s).1 in
        let h' : (f a s').0 ≡ some b = subst (λ r. r.0 ≡ some b) q h in
        let e' : (cur (f a s').1).err ≡ none = subst (λ r. (cur r.1).err ≡ none) q e in
        let live : (cur s').err ≡ none = elim (Option-cases (cur s').err) [
          | inl n ↦ n
          | inr (x, failed) ↦ cc ((l a).sticky s' x failed)
        ] in
        let (xs, t, pa) = u.reads s a ab p live in
        let (ys, t', rb) = (v a xs pa).reads s' b (k.bytes s ab) h' e' in
        (
          xs ++ ys,
          subst (λ r. Took (cur s) (xs ++ ys) (cur r.1)) (sym q)
              (Took-append (cur s) (cur s') (cur (f a s').1) xs ys t t'),
          rb,
        );
  }

  pub Sound-weaken :
      {A : Type 0} {m : M S A} {P R : A → List ℕ → Type 0}
      → Sound m P
      → ((a : A) (xs : List ℕ) → P a xs → R a xs)
      → Sound m R
  Sound-weaken u w = record {
    reads = λ s a ab h e. let (xs, t, p) = u.reads s a ab h e in (xs, t, w _ xs p);
  }

  -- Both at once. `R` may ask for what earlier steps took, so one rule composes a whole `do` block.
  pub record Step {A : Type 0} (m : M S A) (R : A → List ℕ → Type 0) : Type 0 where
    pub keeps : Keeps m
    pub sound : Sound m R

  pub Step-pure : {A : Type 0} (a : A) (R : A → List ℕ → Type 0) → R a [] → Step (pure a) R
  Step-pure a R h = record { keeps = Keeps-pure a; sound = Sound-pure a R h }

  pub Step-bind :
      {A B : Type 0} {m : M S A} {f : A → M S B} {P : A → List ℕ → Type 0} {R : B → List ℕ → Type 0}
      → Step m P
      → ((a : A) → Step (f a) (λ b ys. (xs : List ℕ) → P a xs → R b (xs ++ ys)))
      → Step (m >>= f) R
  Step-bind {m} {f} t u = record {
    keeps = Keeps-bind m f t.keeps (λ a. (u a).keeps);
    sound =
        Sound-bind t.keeps (λ a. (u a).keeps) t.sound
          (λ a xs p. Sound-weaken (u a).sound (λ b ys r. r xs p));
  }

  pub Step-weaken :
      {A : Type 0} {m : M S A} {P R : A → List ℕ → Type 0}
      → Step m P
      → ((a : A) (xs : List ℕ) → P a xs → R a xs)
      → Step m R
  Step-weaken t w = record { keeps = t.keeps; sound = Sound-weaken t.sound w }

  pub Step-if :
      {A : Type 0} (b : Bool) {x y : M S A} {R : A → List ℕ → Type 0}
      → Step x (λ a bs. b ≡ true → R a bs)
      → Step y (λ a bs. b ≡ false → R a bs)
      → Step (if b then x else y) R
  Step-if true hx hy = Step-weaken hx (λ a bs r. r refl)
  Step-if false hx hy = Step-weaken hy (λ a bs r. r refl)
