-- ===== src/Prelude/Assoc.antt =====
-- `std::map` with keys that are numbers, as a list in the order of the keys.
use Prim.Native.Nat.{ℕ}
use mathlib.Core.Path.{◌≡◌, refl}
use mathlib.Core.List.{List, [], ◌∷◌}
use mathlib.Core.Option.{Option, none, some}
use native.Mathlib.Omega.{arith}
use aribcap_dump.Prelude.Tests.{◌==◌, ltb, if◌then◌else◌, is_none}

module _ {ℓ} {A : Type ℓ} where
  abbrev pub lookup : ℕ → List (ℕ × A) → Option A
  lookup k [] = none
  lookup k (x ∷ xs) = if x.0 == k then some x.1 else lookup k xs

  -- `try_emplace`: a key that is there keeps its value.
  abbrev pub insert : ℕ → A → List (ℕ × A) → List (ℕ × A)
  insert k v [] = (k, v) ∷ []
  insert k v (x ∷ xs) =
      let rest = insert k v xs in
      if x.0 == k then x ∷ xs else if ltb k x.0 then (k, v) ∷ x ∷ xs else x ∷ rest

  abbrev pub erase : ℕ → List (ℕ × A) → List (ℕ × A)
  erase k [] = []
  erase k (x ∷ xs) = let rest = erase k xs in if x.0 == k then rest else x ∷ rest

  -- Another value for a key that is there.
  abbrev pub update : ℕ → A → List (ℕ × A) → List (ℕ × A)
  update k v [] = []
  update k v (x ∷ xs) = let rest = update k v xs in if x.0 == k then (k, v) ∷ rest else x ∷ rest

  abbrev pub keys : List (ℕ × A) → List ℕ
  keys [] = []
  keys (x ∷ xs) = x.0 ∷ keys xs

module _ {ℓ} {A : Type ℓ} where
  pub lookup-insert :
      (k q : ℕ) (v : A) (xs : List (ℕ × A))
      → lookup k xs ≡ none
      → lookup q (insert k v xs) ≡ (if k == q then some v else lookup q xs)
  lookup-insert k q v [] h = refl
  lookup-insert k q v (x ∷ xs) h =
      let ih : lookup k xs ≡ none
          → lookup q (insert k v xs) ≡ (if k == q then some v else lookup q xs) =
        lookup-insert k q v xs in
      ground (arith, h, ih)

  pub lookup-erase :
      (k q : ℕ) (xs : List (ℕ × A)) → lookup q (erase k xs) ≡ (if k == q then none else lookup q xs)
  lookup-erase k q [] = ground arith
  lookup-erase k q (x ∷ xs) = ground (arith, lookup-erase k q xs)

  pub is_none-lookup-update :
      (k q : ℕ) (v : A) (xs : List (ℕ × A))
      → is_none (lookup q (update k v xs)) ≡ is_none (lookup q xs)
  is_none-lookup-update k q v [] = refl
  is_none-lookup-update k q v (x ∷ xs) = ground (arith, is_none-lookup-update k q v xs)
