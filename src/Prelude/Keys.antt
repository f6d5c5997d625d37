-- ===== src/Prelude/Keys.antt =====
-- Equality of keys as an interface, and Python's `dict` as an association list in insertion order.
use text.Mathlib.Text.{◌==◌ as str_eq}
use text.Mathlib.TextEquality.{eq_iff}
use Prim.Native.String.{String}
use Prim.Native.Nat.{ℕ}
use mathlib.Core.Path.{◌≡◌, refl}
use mathlib.Core.Logic.{◌↔◌}
use mathlib.Core.Bool.{Bool, true, false, ◌||◌}
use mathlib.Core.List.{List, [], ◌∷◌, ◌++◌}
use mathlib.Core.Option.{Option, none, some}
use native.Mathlib.Omega.{arith}
use raggio.Prelude.Lists.{keep, any}
use raggio.Prelude.Tests.{◌==◌ as nat_beq, ==_iff, if◌then◌else◌}

pub record Eq {ℓ} (A : Type ℓ) : Type ℓ where
  pub beq : A → A → Bool
  pub beq_iff : (a b : A) → (beq a b ≡ true) ↔ (a ≡ b)

infix 50 ◌=?◌
abbrev pub ◌=?◌ {ℓ} : {A : Type ℓ} ⦃e : Eq A⦄ → A → A → Bool
◌=?◌ ⦃e⦄ = e.beq

instance abbrev pub nat_eq : Eq ℕ
nat_eq = record { beq = nat_beq; beq_iff = ==_iff }

instance abbrev pub string_eq : Eq String
string_eq = record { beq = str_eq; beq_iff = eq_iff }

module _ {ℓ κ} {K : Type ℓ} {V : Type κ} ⦃e : Eq K⦄ where
  -- d.get(k)
  unfoldable pub lookup : K → List (K × V) → Option V
  lookup k [] = none
  lookup k ((j, v) ∷ m) = if e.beq j k then some v else lookup k m

  -- d[k] = v: a present key keeps its place
  unfoldable pub insert : K → V → List (K × V) → List (K × V)
  insert k v [] = (k, v) ∷ []
  insert k v ((j, w) ∷ m) = if e.beq j k then (j, v) ∷ m else (j, w) ∷ insert k v m

  -- d.pop(k, None)
  unfoldable pub remove : K → List (K × V) → List (K × V)
  remove k [] = []
  remove k ((j, v) ∷ m) = let rest = remove k m in if e.beq j k then rest else (j, v) ∷ rest

  pub lookup-insert :
      (k j : K) (v : V) (m : List (K × V))
      → lookup j (insert k v m) ≡ (if e.beq k j then some v else lookup j m)
  unfolding lookup insert
  lookup-insert k j v [] = refl
  lookup-insert k j v ((i, w) ∷ m) =
      ground (arith, e.beq_iff k j, e.beq_iff i k, e.beq_iff i j, lookup-insert k j v m)

  pub lookup-remove :
      (k j : K) (m : List (K × V))
      → lookup j (remove k m) ≡ (if e.beq k j then none else lookup j m)
  unfolding lookup remove
  lookup-remove k j [] = ground arith
  lookup-remove k j ((i, w) ∷ m) =
      ground (arith, e.beq_iff k j, e.beq_iff i k, e.beq_iff i j, lookup-remove k j m)

-- Some member has the key `k`.
abbrev pub has {ℓ κ} : {K : Type ℓ} {A : Type κ} ⦃e : Eq K⦄ → (A → K) → K → List A → Bool
has ⦃e⦄ f k = any (λ a. e.beq (f a) k)

-- No two members have the same key.
abbrev pub Distinct {ℓ κ} : {K : Type ℓ} {A : Type κ} ⦃e : Eq K⦄ → (A → K) → List A → Type 0
Distinct f [] = Unit
Distinct f (x ∷ xs) = (has f (f x) xs ≡ false) × Distinct f xs

module _ {ℓ κ} {K : Type ℓ} {A : Type κ} ⦃e : Eq K⦄ (f : A → K) where
  pub has-append : (k : K) (xs ys : List A) → has f k (xs ++ ys) ≡ (has f k xs || has f k ys)
  has-append k [] ys = refl
  has-append k (x ∷ xs) ys = ground (arith, has-append k xs ys)

  pub has-keep_absent :
      (p : A → Bool) (k : K) (xs : List A) → has f k xs ≡ false → has f k (keep p xs) ≡ false
  has-keep_absent p k [] h = refl
  has-keep_absent p k (x ∷ xs) h = ground (arith, has-keep_absent p k xs)

  pub keep-Distinct : (p : A → Bool) (xs : List A) → Distinct f xs → Distinct f (keep p xs)
  keep-Distinct p [] d = tt
  keep-Distinct p (x ∷ xs) d =
      ground (arith, keep-Distinct p xs d.1, has-keep_absent p (f x) xs d.0)

  -- Lists that share no key.
  abbrev pub Disjoint : List A → List A → Type 0
  Disjoint [] ys = Unit
  Disjoint (x ∷ xs) ys = (has f (f x) ys ≡ false) × Disjoint xs ys

  pub append-Distinct :
      (xs ys : List A) → Distinct f xs → Distinct f ys → Disjoint xs ys → Distinct f (xs ++ ys)
  append-Distinct [] ys dx dy j = dy
  append-Distinct (x ∷ xs) ys dx dy j =
      (ground (arith, has-append (f x) xs ys), append-Distinct xs ys dx.1 dy j.1)

module _ {ℓ κ} {K : Type ℓ} {V : Type κ} ⦃e : Eq K⦄ where
  abbrev pub key : K × V → K
  key p = p.0

  pub has-insert :
      (k j : K) (v : V) (m : List (K × V)) → has key j (insert k v m) ≡ (e.beq k j || has key j m)
  unfolding insert
  has-insert k j v [] = ground arith
  has-insert k j v ((i, w) ∷ m) =
      ground (arith, e.beq_iff i k, e.beq_iff i j, e.beq_iff k j, has-insert k j v m)

  pub insert-Distinct :
      (k : K) (v : V) (m : List (K × V)) → Distinct key m → Distinct key (insert k v m)
  unfolding insert
  insert-Distinct k v [] d = (refl, tt)
  insert-Distinct k v ((i, w) ∷ m) d =
      ground (arith, e.beq_iff i k, e.beq_iff k i, has-insert k i v m, insert-Distinct k v m d.1)

  pub has-remove :
      (k j : K) (m : List (K × V))
      → has key j (remove k m) ≡ (if e.beq k j then false else has key j m)
  unfolding remove
  has-remove k j [] = ground arith
  has-remove k j ((i, w) ∷ m) =
      ground (arith, e.beq_iff i k, e.beq_iff i j, e.beq_iff k j, has-remove k j m)
