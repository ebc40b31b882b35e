-- ===== src/Prelude/Maps.antt =====
-- Types whose equality the program tests, and maps as association lists with one entry for a key.
use Prim.Native.String.{String}
use Prim.Native.Nat.{ℕ, ◌+◌}
use mathlib.Core.Path.{◌≡◌, refl, subst}
use mathlib.Core.Logic.{◌↔◌, inl, inr}
use mathlib.Core.Bool.{Bool, true, false}
use mathlib.Core.Option.{Option, none, some}
use mathlib.Core.List.{List, [], ◌∷◌}
use native.Mathlib.Omega.{arith}
use text.Mathlib.Text
use text.Mathlib.TextEquality.{eq_iff}
use ved_db_server.Prelude.Tests.{◌==◌, if◌then◌else◌, ==_iff, Bool-cases}

pub record Eq {ℓ} (A : Type ℓ) : Type ℓ where
  pub same : A → A → Bool
  pub same_iff : (a b : A) → (same a b ≡ true) ↔ (a ≡ b)

pub same_refl {ℓ} : {A : Type ℓ} ⦃e : Eq A⦄ (a : A) → e.same a a ≡ true
same_refl ⦃e⦄ a = (e.same_iff a a).1 refl

instance unfoldable pub String-Eq : Eq String
String-Eq = record { same = Text.◌==◌; same_iff = eq_iff }

instance unfoldable pub ℕ-Eq : Eq ℕ
ℕ-Eq = record { same = ◌==◌; same_iff = ==_iff }

abbrev pub Map {ℓ κ} : Type ℓ → Type κ → Type (ℓ ⊔ κ)
Map K V = List (K × V)

-- the weights of the values together, and that of a value looked up
unfoldable pub weight {ℓ κ} : {K : Type ℓ} {V : Type κ} → (V → ℕ) → Map K V → ℕ
weight f [] = 0
weight f ((j, w) ∷ m) = f w + weight f m

unfoldable pub weight_of {κ} : {V : Type κ} → (V → ℕ) → Option V → ℕ
weight_of f none = 0
weight_of f (some v) = f v

module _ {ℓ κ} {K : Type ℓ} {V : Type κ} ⦃e : Eq K⦄ where
  unfoldable pub lookup : K → Map K V → Option V
  lookup k [] = none
  lookup k ((j, v) ∷ m) = let rest = lookup k m in if e.same j k then some v else rest

  unfoldable pub insert : K → V → Map K V → Map K V
  insert k v [] = (k, v) ∷ []
  insert k v ((j, w) ∷ m) =
      let rest = insert k v m in if e.same j k then (j, v) ∷ m else (j, w) ∷ rest

  unfoldable pub erase : K → Map K V → Map K V
  erase k [] = []
  erase k ((j, w) ∷ m) = let rest = erase k m in if e.same j k then rest else (j, w) ∷ rest

  pub lookup-insert :
      (k j : K) (v : V) (m : Map K V)
      → lookup j (insert k v m) ≡ (if e.same k j then some v else lookup j m)
  unfolding lookup insert
  lookup-insert k j v [] = refl
  lookup-insert k j v ((i, w) ∷ m) =
      ground (arith, e.same_iff k j, e.same_iff i k, e.same_iff i j, lookup-insert k j v m)

  pub lookup-erase :
      (k j : K) (m : Map K V) → lookup j (erase k m) ≡ (if e.same k j then none else lookup j m)
  unfolding lookup erase
  lookup-erase k j [] = ground arith
  lookup-erase k j ((i, w) ∷ m) =
      ground (arith, e.same_iff k j, e.same_iff i k, e.same_iff i j, lookup-erase k j m)

  -- Each key stands once.
  unfoldable pub distinct : Map K V → Bool
  distinct [] = true
  distinct ((j, w) ∷ m) = elim (lookup j m) [ none ↦ distinct m | some v ↦ false ]

  pub weight-insert :
      (f : V → ℕ) (k : K) (v : V) (m : Map K V)
      → weight f (insert k v m) + weight_of f (lookup k m) ≡ weight f m + f v
  unfolding insert lookup weight weight_of
  weight-insert f k v [] = ground arith
  weight-insert f k v ((j, w) ∷ m) = ground (arith, weight-insert f k v m)

  pub distinct-absent :
      (j : K) (w : V) (m : Map K V) → distinct ((j, w) ∷ m) ≡ true → lookup j m ≡ none
  unfolding distinct
  distinct-absent j w m d = ground arith

  pub distinct-rest :
      (j : K) (w : V) (m : Map K V) → distinct ((j, w) ∷ m) ≡ true → distinct m ≡ true
  unfolding distinct
  distinct-rest j w m d = ground arith

  erase-absent : (k : K) (m : Map K V) → lookup k m ≡ none → erase k m ≡ m
  unfolding lookup erase
  erase-absent k [] e = refl
  erase-absent k ((j, w) ∷ m) absent = ground (arith, erase-absent k m)

  pub weight-erase :
      (f : V → ℕ) (k : K) (m : Map K V)
      → distinct m ≡ true
      → weight f (erase k m) + weight_of f (lookup k m) ≡ weight f m
  unfolding erase lookup weight weight_of distinct
  weight-erase f k [] d = ground arith
  weight-erase f k ((j, w) ∷ m) d = elim (Bool-cases (e.same j k)) [
    | inl here ↦
        let absent : lookup k m ≡ none =
          subst (λ i. lookup i m ≡ none) ((e.same_iff j k).0 here) (distinct-absent j w m d) in
        ground (arith, erase-absent k m absent)
    | inr there ↦ ground (arith, weight-erase f k m (distinct-rest j w m d))
  ]

  pub distinct-insert :
      (k : K) (v : V) (m : Map K V) → distinct m ≡ true → distinct (insert k v m) ≡ true
  unfolding distinct insert lookup
  distinct-insert k v [] d = refl
  distinct-insert k v ((j, w) ∷ m) d =
      ground (arith, distinct-insert k v m, lookup-insert k j v m, e.same_iff j k, e.same_iff k j)

  pub distinct-erase : (k : K) (m : Map K V) → distinct m ≡ true → distinct (erase k m) ≡ true
  unfolding distinct erase lookup
  distinct-erase k [] d = refl
  distinct-erase k ((j, w) ∷ m) d =
      ground (arith, distinct-erase k m, lookup-erase k j m, e.same_iff j k, e.same_iff k j)
