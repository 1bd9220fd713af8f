-- ===== src/Common/Dict.antt =====
-- Go maps as association lists with one pair for each key. A loop over a map runs through the pairs
-- in the order of the list, which stands for whichever order Go takes.
use Prim.Native.Nat.{ℕ}
use Prim.Native.String.{String}
use text.Mathlib.Text.{◌==◌ as str_eq}
use text.Mathlib.TextEquality.{eq_iff}
use mathlib.Core.Path.{◌≡◌, refl, subst}
use mathlib.Core.Logic.{◌↔◌, inl, inr}
use mathlib.Core.Bool.{Bool, true}
use mathlib.Core.Option
use mathlib.Core.Option.{Option, none, some}
use mathlib.Core.List.{List, [], ◌∷◌}
use native.Mathlib.Omega.{arith}
use tip_olg_nats_agent_core.Common.Tests.{nat_eq, if◌then◌else◌, Bool-cases}

-- A key type with a Boolean equality.
pub record Key {ℓ} (K : Type ℓ) : Type ℓ where
  pub same : K → K → Bool
  pub same_iff : (a b : K) → (same a b ≡ true) ↔ (a ≡ b)

pub nat_eq_iff : (a b : ℕ) → (nat_eq a b ≡ true) ↔ (a ≡ b)
nat_eq_iff a b = (λ h. ground arith, λ h. ground arith)

instance abbrev pub nat_key : Key ℕ
nat_key = record { same = nat_eq; same_iff = nat_eq_iff }

instance abbrev pub string_key : Key String
string_key = record { same = str_eq; same_iff = eq_iff }

pub same_self {ℓ} : {K : Type ℓ} ⦃key : Key K⦄ (k : K) → key.same k k ≡ true
same_self ⦃key⦄ k = (key.same_iff k k).1 refl

module _ {ℓ κ} {K : Type ℓ} {V : Type κ} ⦃key : Key K⦄ where
  -- m[k], with the test of its presence
  unfoldable pub lookup : K → List (K × V) → Option V
  lookup k [] = none
  lookup k ((j, v) ∷ m) = if key.same j k then some v else lookup k m

  -- m[k] = v
  unfoldable pub insert : K → V → List (K × V) → List (K × V)
  insert k v [] = (k, v) ∷ []
  insert k v ((j, w) ∷ m) = if key.same j k then (k, v) ∷ m else (j, w) ∷ insert k v m

  -- delete(m, k)
  unfoldable pub delete : K → List (K × V) → List (K × V)
  delete k [] = []
  delete k ((j, w) ∷ m) = let rest = delete k m in if key.same j k then rest else (j, w) ∷ rest

  pub lookup-insert :
      (k j : K) (v : V) (m : List (K × V))
      → lookup j (insert k v m) ≡ (if key.same k j then some v else lookup j m)
  unfolding lookup insert
  lookup-insert k j v [] = refl
  lookup-insert k j v ((i, w) ∷ m) =
      ground (arith, key.same_iff k j, key.same_iff i k, key.same_iff i j, lookup-insert k j v m)

  pub lookup-delete :
      (k j : K) (m : List (K × V))
      → lookup j (delete k m) ≡ (if key.same k j then none else lookup j m)
  unfolding lookup delete
  lookup-delete k j [] = ground arith
  lookup-delete k j ((i, w) ∷ m) =
      ground (arith, key.same_iff k j, key.same_iff i k, key.same_iff i j, lookup-delete k j m)

  -- m[k] points at a value that is changed in place.
  unfoldable pub modify : K → (V → V) → List (K × V) → List (K × V)
  modify k f [] = []
  modify k f ((j, w) ∷ m) = (j, if key.same j k then f w else w) ∷ modify k f m

  pub lookup-modify :
      (k j : K) (f : V → V) (m : List (K × V))
      → lookup j (modify k f m) ≡ (if key.same k j then Option.map f (lookup j m) else lookup j m)
  unfolding lookup modify
  lookup-modify k j f [] = ground arith
  lookup-modify k j f ((i, w) ∷ m) =
      ground (arith, key.same_iff k j, key.same_iff i k, key.same_iff i j, lookup-modify k j f m)

  -- Each value is changed in place.
  unfoldable pub map_values : (V → V) → List (K × V) → List (K × V)
  map_values f [] = []
  map_values f ((j, w) ∷ m) = (j, f w) ∷ map_values f m

  pub lookup-map_values :
      (j : K) (f : V → V) (m : List (K × V)) → lookup j (map_values f m) ≡ Option.map f (lookup j m)
  unfolding lookup map_values
  lookup-map_values j f [] = refl
  lookup-map_values j f ((i, w) ∷ m) = ground (arith, lookup-map_values j f m)

  -- One pair for each key.
  abbrev pub Unique : List (K × V) → Type κ
  Unique [] = Unit
  Unique ((k, v) ∷ m) = (lookup k m ≡ none) × Unique m

  pub insert-Unique : (k : K) (v : V) (m : List (K × V)) → Unique m → Unique (insert k v m)
  unfolding insert lookup
  insert-Unique k v [] h = (refl, tt)
  insert-Unique k v ((j, w) ∷ m) (fresh, h) = elim (Bool-cases (key.same j k)) [
    | inl e ↦ rw e (subst (λ i. lookup i m ≡ none) ((key.same_iff j k).0 e) fresh, h)
    | inr e ↦ rw e (
      ground (arith, lookup-insert k j v m, key.same_iff j k, key.same_iff k j),
      insert-Unique k v m h,
    )
  ]

  pub delete-Unique : (k : K) (m : List (K × V)) → Unique m → Unique (delete k m)
  unfolding delete lookup
  delete-Unique k [] h = tt
  delete-Unique k ((j, w) ∷ m) (fresh, h) = elim (Bool-cases (key.same j k)) [
    | inl e ↦ rw e (delete-Unique k m h)
    | inr e ↦ rw e (ground (arith, lookup-delete k j m), delete-Unique k m h)
  ]

  pub modify-Unique : (k : K) (f : V → V) (m : List (K × V)) → Unique m → Unique (modify k f m)
  unfolding modify lookup
  modify-Unique k f [] h = tt
  modify-Unique k f ((j, w) ∷ m) (fresh, h) =
      (ground (arith, lookup-modify k j f m), modify-Unique k f m h)

  pub map_values-Unique : (f : V → V) (m : List (K × V)) → Unique m → Unique (map_values f m)
  unfolding map_values lookup
  map_values-Unique f [] h = tt
  map_values-Unique f ((j, w) ∷ m) (fresh, h) =
      (ground (arith, lookup-map_values j f m), map_values-Unique f m h)
