-- ===== src/Shared/Places.antt =====
-- What stands at the places of a list: behind a store, under a function, and in a list of equals.
use Prim.Native.Nat.{ℕ, zero, suc}
use native.Mathlib.Decide.{ℕ_discrete}
use mathlib.Core.Logic.{◌≢◌, ◌⊎◌, inl, inr}
use mathlib.Core.Path.{◌≡◌, refl, ap, sym, ◌∙◌, subst}
use mathlib.Core.List.{List, [], ◌∷◌, map}
use mathlib.Core.Option.{some, some-injective, some-ne-none}
use kaonic_comm.Shared.Lists.{get_elem?, set, replicate, get_elem?-set_self, get_elem?-set_other}

module _ {ℓ} {A : Type ℓ} where
  -- An element behind a store is the one that was stored, or stood elsewhere.
  pub set_here_or_elsewhere :
      (xs : List A) (i j : ℕ) (v x y : A)
      → get_elem? xs i ≡ some y
      → get_elem? (set xs i v) j ≡ some x
      → ((i ≡ j) × (v ≡ x)) ⊎ ((i ≢ j) × (get_elem? xs j ≡ some x))
  set_here_or_elsewhere xs i j v x y at e = elim (ℕ_discrete i j) [
    | yes same ↦ inl (
      same,
      some-injective v x (
          sym (get_elem?-set_self xs i v y at)
          ∙ subst (λ k. get_elem? (set xs i v) k ≡ some x) (sym same) e),
    )
    | no ne ↦ inr (ne, sym (get_elem?-set_other xs i j v ne) ∙ e)
  ]

  pub get_elem?-replicate : (n i : ℕ) (x y : A) → get_elem? (replicate n x) i ≡ some y → x ≡ y
  get_elem?-replicate zero i x y e = absurd (some-ne-none y (sym e))
  get_elem?-replicate (suc n) zero x y e = some-injective x y e
  get_elem?-replicate (suc n) (suc i) x y e = get_elem?-replicate n i x y e

  pub List-cases : (xs : List A) → (xs ≡ []) ⊎ ((x : A) × (rest : List A) × (xs ≡ x ∷ rest))
  List-cases [] = inl refl
  List-cases (x ∷ xs) = inr (x, xs, refl)

module _ {ℓ κ} {A : Type ℓ} {B : Type κ} (f : A → B) where
  pub map-set : (xs : List A) (i : ℕ) (x : A) → map f (set xs i x) ≡ set (map f xs) i (f x)
  map-set [] i x = refl
  map-set (y ∷ xs) zero x = refl
  map-set (y ∷ xs) (suc i) x = ap (λ l. f y ∷ l) (map-set xs i x)

  pub get_elem?-map :
      (xs : List A) (i : ℕ) (x : A) → get_elem? xs i ≡ some x → get_elem? (map f xs) i ≡ some (f x)
  get_elem?-map [] i x e = absurd (some-ne-none x (sym e))
  get_elem?-map (y ∷ xs) zero x e = ap (λ z. some (f z)) (some-injective y x e)
  get_elem?-map (y ∷ xs) (suc i) x e = get_elem?-map xs i x e

  pub map-replicate : (n : ℕ) (x : A) → map f (replicate n x) ≡ replicate n (f x)
  map-replicate zero x = refl
  map-replicate (suc n) x = ap (λ l. f x ∷ l) (map-replicate n x)
