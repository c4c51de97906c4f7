-- ===== src/Service/Lookups.antt =====
-- Look-ups in a map whose keys are PIDs, and tests of PIDs.
use aribcap_dump.Prelude.{
  subst, [], ℕ_discrete, true, ◌&&◌, arith, some, ◌||◌, none, not, is_none, ◌==◌, ◌≡◌, Option,
  if◌then◌else◌, ◌≢◌, lookup, keys, false, ◌∷◌, Bool, ℕ, List, refl,
}

abbrev pub HasDistinctKeys : {A : Type 0} → List (ℕ × A) → Type 0
HasDistinctKeys [] = Unit {0}
HasDistinctKeys (x ∷ xs) = (lookup x.0 xs ≡ none) × HasDistinctKeys xs

abbrev pub contains : ℕ → List ℕ → Bool
contains p [] = false
contains p (q ∷ qs) = q == p || contains p qs

pub lookup-keys :
    {A : Type 0} (p : ℕ) (xs : List (ℕ × A)) → contains p (keys xs) ≡ false → lookup p xs ≡ none
lookup-keys p [] h = refl
lookup-keys p (x ∷ xs) h =
    let ih : contains p (keys xs) ≡ false → lookup p xs ≡ none = lookup-keys p xs in
    ground (arith, h, ih)

pub lookup_same : {A : Type 0} (k : ℕ) (v : A) (xs : List (ℕ × A)) → lookup k ((k, v) ∷ xs) ≡ some v
lookup_same k v xs = ground arith

pub lookup_other :
    {A : Type 0} (k p : ℕ) (v : A) (xs : List (ℕ × A))
    → k ≢ p
    → lookup p ((k, v) ∷ xs) ≡ lookup p xs
lookup_other k p v xs n = ground (arith, n)

pub if_ap :
    {A B : Type 0} (f : A → B) (b : Bool) (a c : A)
    → f (if b then a else c) ≡ (if b then f a else f c)
if_ap f true a c = refl
if_ap f false a c = refl

pub if_same : {A : Type 0} (b : Bool) (a : A) → (if b then a else a) ≡ a
if_same true a = refl
if_same false a = refl

pub unregistered :
    {A B : Type 0} (pid p : ℕ) (c : Bool) (desired : List (ℕ × B)) (old : Option A)
    → (if is_none (lookup pid desired)
        then (if is_none (lookup p desired) && c then none else if pid == p then none else old)
        else (if is_none (lookup p desired) && c then none else old))
      ≡ (if is_none (lookup p desired) && ((pid == p) || c) then none else old)
unregistered pid p c desired old = elim (ℕ_discrete pid p) [
  | yes e ↦
      subst
        (λ q.
          (if is_none (lookup pid desired)
            then (if is_none (lookup q desired) && c then none else if pid == q then none else old)
            else (if is_none (lookup q desired) && c then none else old))
          ≡ (if is_none (lookup q desired) && ((pid == q) || c) then none else old))
        e (ground arith)
  | no n ↦ ground (arith, n)
]

pub if_not : {A : Type 0} (b : Bool) (a c : A) → (if not b then a else c) ≡ (if b then c else a)
if_not true a c = refl
if_not false a c = refl

pub if_self : {A : Type 0} (p : ℕ) {a : A} (c : A) → (if p == p then a else c) ≡ a
if_self p c = ground arith

pub if_other : {A : Type 0} (k p : ℕ) (a : A) {c : A} → k ≢ p → (if k == p then a else c) ≡ c
if_other k p a n = ground (arith, n)
