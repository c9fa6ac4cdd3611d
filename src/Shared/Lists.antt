-- ===== src/Shared/Lists.antt =====
-- Lists measured by native numbers, and the operations of `std::vector` and `memcpy` on them.
use Prim.Native.Nat.{ℕ, zero, suc, ◌+◌, ◌-◌, ◌≤◌, ◌<◌}
use kaonic_comm.Shared.Tests.{◌==◌, if◌then◌else◌, Bool-cases}
use mathlib.Core.Logic.{◌≢◌, ◌⊎◌, inl, inr}
use mathlib.Core.Path.{◌≡◌, refl, ap, sym, ◌∙◌}
use mathlib.Core.List.{List, [], ◌∷◌, ◌++◌}
use mathlib.Core.Option.{Option, none, some, some-injective, some-ne-none}
use native.Mathlib.Omega.{arith}

module _ {ℓ} {A : Type ℓ} where
  abbrev pub length : List A → ℕ
  length [] = 0
  length (x ∷ xs) = suc (length xs)

  abbrev pub get_elem? : List A → ℕ → Option A
  get_elem? [] i = none
  get_elem? (x ∷ xs) zero = some x
  get_elem? (x ∷ xs) (suc i) = get_elem? xs i

  abbrev pub get_or : List A → ℕ → A → A
  get_or [] i d = d
  get_or (x ∷ xs) zero d = x
  get_or (x ∷ xs) (suc i) d = get_or xs i d

  -- A write out of bounds changes nothing.
  abbrev pub set : List A → ℕ → A → List A
  set [] i v = []
  set (x ∷ xs) zero v = v ∷ xs
  set (x ∷ xs) (suc i) v = x ∷ set xs i v

  abbrev pub take : ℕ → List A → List A
  take zero xs = []
  take (suc n) [] = []
  take (suc n) (x ∷ xs) = x ∷ take n xs

  abbrev pub drop : ℕ → List A → List A
  drop zero xs = xs
  drop (suc n) [] = []
  drop (suc n) (x ∷ xs) = drop n xs

  abbrev pub replicate : ℕ → A → List A
  replicate zero a = []
  replicate (suc n) a = a ∷ replicate n a

  -- `v.resize(n)`, where the new elements are `fill`.
  abbrev pub resize : A → ℕ → List A → List A
  resize fill zero xs = []
  resize fill (suc n) [] = fill ∷ resize fill n []
  resize fill (suc n) (x ∷ xs) = x ∷ resize fill n xs

  -- `memcpy(dst, src, src.size())`: what lies behind the copied part stays. A copy past the end of
  -- the destination stops there.
  abbrev pub memcpy : List A → List A → List A
  memcpy dst [] = dst
  memcpy [] (s ∷ src) = []
  memcpy (d ∷ dst) (s ∷ src) = s ∷ memcpy dst src

  abbrev pub All {κ} : (A → Type κ) → List A → Type κ
  All P [] = Unit {κ}
  All P (x ∷ xs) = P x × All P xs

module _ {ℓ} {A : Type ℓ} where
  pub length-append : (xs ys : List A) → length (xs ++ ys) ≡ length xs + length ys
  length-append [] ys = omega arith
  length-append (x ∷ xs) ys = omega (arith, length-append xs ys)

  pub length-set : (xs : List A) (i : ℕ) (v : A) → length (set xs i v) ≡ length xs
  length-set [] i v = refl
  length-set (x ∷ xs) zero v = refl
  length-set (x ∷ xs) (suc i) v = ap suc (length-set xs i v)

  -- Writing what is there changes nothing.
  pub set_same : (xs : List A) (i : ℕ) (x : A) → get_elem? xs i ≡ some x → set xs i x ≡ xs
  set_same [] i x h = refl
  set_same (y ∷ xs) zero x h = ap (λ (z : A). z ∷ xs) (sym (some-injective _ _ h))
  set_same (y ∷ xs) (suc i) x h = ap (λ zs. y ∷ zs) (set_same xs i x h)

  pub drop-get_elem? :
      (xs : List A) (k : ℕ) (x : A) → get_elem? xs k ≡ some x → drop k xs ≡ x ∷ drop (suc k) xs
  drop-get_elem? [] k x h = absurd (some-ne-none _ (sym h))
  drop-get_elem? (y ∷ xs) zero x h = ap (λ (z : A). z ∷ xs) (some-injective _ _ h)
  drop-get_elem? (y ∷ xs) (suc k) x h = drop-get_elem? xs k x h

  pub length-drop : (n : ℕ) (xs : List A) → length (drop n xs) ≡ length xs - n
  length-drop zero xs = omega arith
  length-drop (suc n) [] = omega arith
  length-drop (suc n) (x ∷ xs) = omega (arith, length-drop n xs)

  pub length-resize : (fill : A) (n : ℕ) (xs : List A) → length (resize fill n xs) ≡ n
  length-resize fill zero xs = refl
  length-resize fill (suc n) [] = ap suc (length-resize fill n [])
  length-resize fill (suc n) (x ∷ xs) = ap suc (length-resize fill n xs)

  pub length-memcpy : (dst src : List A) → length (memcpy dst src) ≡ length dst
  length-memcpy dst [] = refl
  length-memcpy [] (s ∷ src) = refl
  length-memcpy (d ∷ dst) (s ∷ src) = ap suc (length-memcpy dst src)

  -- Copying over the whole of a destination leaves the source.
  pub memcpy_whole : (dst src : List A) → length dst ≡ length src → memcpy dst src ≡ src
  memcpy_whole [] [] h = refl
  memcpy_whole (d ∷ dst) [] h = absurd (omega arith)
  memcpy_whole [] (s ∷ src) h = absurd (omega arith)
  memcpy_whole (d ∷ dst) (s ∷ src) h = ap (λ r. s ∷ r) (memcpy_whole dst src (omega arith))

  -- Cutting a copy down to its source gives the source back.
  pub resize-memcpy :
      (fill : A) (dst src : List A)
      → length src ≤ length dst
      → resize fill (length src) (memcpy dst src) ≡ src
  resize-memcpy fill dst [] h = refl
  resize-memcpy fill [] (s ∷ src) h = absurd (omega arith)
  resize-memcpy fill (d ∷ dst) (s ∷ src) h =
      ap (λ r. s ∷ r) (resize-memcpy fill dst src (omega arith))

  pub resize_self : (fill : A) (xs : List A) → resize fill (length xs) xs ≡ xs
  resize_self fill [] = refl
  resize_self fill (x ∷ xs) = ap (λ r. x ∷ r) (resize_self fill xs)

  pub All-memcpy {κ} :
      (P : A → Type κ) (dst src : List A) → All P dst → All P src → All P (memcpy dst src)
  All-memcpy P dst [] hd hs = hd
  All-memcpy P [] (s ∷ src) hd hs = hd
  All-memcpy P (d ∷ dst) (s ∷ src) hd hs = (hs.0, All-memcpy P dst src hd.1 hs.1)

  pub All-append {κ} : (P : A → Type κ) (xs ys : List A) → All P xs → All P ys → All P (xs ++ ys)
  All-append P [] ys hx hy = hy
  All-append P (x ∷ xs) ys hx hy = (hx.0, All-append P xs ys hx.1 hy)

  pub drop_at : {j k : ℕ} (xs : List A) → j ≡ k → drop j xs ≡ drop k xs
  drop_at xs e = ap (λ n. drop n xs) e

  pub drop-append : (k : ℕ) (xs ys : List A) → k ≤ length xs → drop k xs ++ ys ≡ drop k (xs ++ ys)
  drop-append zero xs ys h = refl
  drop-append (suc k) [] ys h = absurd (omega arith)
  drop-append (suc k) (x ∷ xs) ys h = drop-append k xs ys (omega arith)

pub drop-nil {ℓ} : (A : Type ℓ) (n : ℕ) → drop {A = A} n [] ≡ []
drop-nil A zero = refl
drop-nil A (suc n) = refl

module _ {ℓ} {A : Type ℓ} where
  pub drop-drop : (b a : ℕ) (xs : List A) → drop a (drop b xs) ≡ drop (b + a) xs
  drop-drop zero a xs = drop_at xs (omega arith)
  drop-drop (suc b) a [] = drop-nil A a ∙ sym (drop-nil A (suc b + a))
  drop-drop (suc b) a (x ∷ xs) =
      drop-drop b a xs ∙ drop_at {j = suc (b + a)} {k = suc b + a} (x ∷ xs) (omega arith)

  pub lt_of_get_elem? : (xs : List A) (i : ℕ) {x : A} → get_elem? xs i ≡ some x → i < length xs
  lt_of_get_elem? [] i h = cc
  lt_of_get_elem? (x ∷ xs) zero h = omega arith
  lt_of_get_elem? (x ∷ xs) (suc i) h = omega (arith, lt_of_get_elem? xs i h)

  pub get_elem?-set :
      (xs : List A) (i j : ℕ) (v : A)
      → i < length xs
      → get_elem? (set xs i v) j ≡ (if j == i then some v else get_elem? xs j)
  get_elem?-set [] i j v h = absurd (omega arith)
  get_elem?-set (x ∷ xs) zero zero v h = ground arith
  get_elem?-set (x ∷ xs) zero (suc j) v h = ground arith
  get_elem?-set (x ∷ xs) (suc i) zero v h = ground arith
  get_elem?-set (x ∷ xs) (suc i) (suc j) v h = ground (arith, get_elem?-set xs i j v)

  -- What a place holds behind a write to a place that was there.
  pub set_cases :
      (xs : List A) (i j : ℕ) (v x y : A)
      → get_elem? xs i ≡ some y
      → get_elem? (set xs i v) j ≡ some x
      → (v ≡ x) ⊎ (get_elem? xs j ≡ some x)
  set_cases xs i j v x y h e =
      let here = get_elem?-set xs i j v (lt_of_get_elem? xs i h) in
      elim (Bool-cases (j == i)) [
        | inl own ↦ inl (some-injective _ _ (sym (rw own at here) ∙ e))
        | inr other ↦ inr (sym (rw other at here) ∙ e)
      ]

  pub get_elem?-some : (xs : List A) (i : ℕ) → i < length xs → (x : A) × (get_elem? xs i ≡ some x)
  get_elem?-some [] i h = absurd (omega arith)
  get_elem?-some (x ∷ xs) zero h = (x, refl)
  get_elem?-some (x ∷ xs) (suc i) h = get_elem?-some xs i (omega arith)

module _ {ℓ} {A : Type ℓ} where
  pub set-set : (xs : List A) (i : ℕ) (v w : A) → set (set xs i v) i w ≡ set xs i w
  set-set [] i v w = refl
  set-set (x ∷ xs) zero v w = refl
  set-set (x ∷ xs) (suc i) v w = ap (λ r. x ∷ r) (set-set xs i v w)

  pub get_elem?-set_self :
      (xs : List A) (i : ℕ) (v x : A) → get_elem? xs i ≡ some x → get_elem? (set xs i v) i ≡ some v
  get_elem?-set_self [] i v x h = cc
  get_elem?-set_self (y ∷ xs) zero v x h = refl
  get_elem?-set_self (y ∷ xs) (suc i) v x h = get_elem?-set_self xs i v x h

  pub get_elem?-set_other :
      (xs : List A) (i j : ℕ) (v : A) → i ≢ j → get_elem? (set xs i v) j ≡ get_elem? xs j
  get_elem?-set_other [] i j v h = refl
  get_elem?-set_other (y ∷ xs) zero zero v h = absurd (h refl)
  get_elem?-set_other (y ∷ xs) zero (suc j) v h = refl
  get_elem?-set_other (y ∷ xs) (suc i) zero v h = refl
  get_elem?-set_other (y ∷ xs) (suc i) (suc j) v h =
      get_elem?-set_other xs i j v (λ e. h (ap suc e))
