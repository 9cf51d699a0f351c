-- ===== src/Prelude/Sorting.antt =====
-- Python's `sorted`: a stable sort, here by insertion.
use Prim.Native.Nat.{suc, ◌+◌}
use Prim.Native.String.{String}
use mathlib.Core.Path.{◌≡◌, refl}
use mathlib.Core.Bool.{Bool, true, false}
use mathlib.Core.List.{List, [], ◌∷◌}
use native.Mathlib.Omega.{arith}
use mathlib.Core.List.{Perm}
use mathlib.Core.List.Perm
use mathlib.Core.Logic.{inl, inr, ◌⊎◌}
use text.Mathlib.Text.{◌==◌}
use murmur_ai_harness.Prelude.Tests.{Bool-cases, if◌then◌else◌, str_le}
use murmur_ai_harness.Prelude.Lists.{All, Has, length, count}

module _ {ℓ} {A : Type ℓ} (before : A → A → Bool) where
  -- `x` is put before the first element that it may precede, so equal elements keep their order.
  unfoldable pub place : A → List A → List A
  place x [] = x ∷ []
  place x (y ∷ ys) = if before x y then x ∷ y ∷ ys else y ∷ place x ys

  unfoldable pub sort : List A → List A
  unfolding place
  sort [] = []
  sort (x ∷ xs) = place x (sort xs)

  length-place : (x : A) (xs : List A) → length (place x xs) ≡ suc (length xs)
  unfolding place
  length-place x [] = refl
  length-place x (y ∷ ys) = ground (arith, length-place x ys)

  pub length-sort : (xs : List A) → length (sort xs) ≡ length xs
  unfolding sort
  length-sort [] = refl
  length-sort (x ∷ xs) = omega (arith, length-place x (sort xs), length-sort xs)

-- `sorted` on texts
unfoldable pub sorted : List String → List String
unfolding sort str_le
sorted = sort str_le

count-place :
    (before : String → String → Bool) (a x : String) (xs : List String)
    → count a (place before x xs) ≡ (if x == a then 1 else 0) + count a xs
unfolding place count
count-place before a x [] = refl
count-place before a x (y ∷ ys) = ground (arith, count-place before a x ys)

pub count-sort :
    (before : String → String → Bool) (a : String) (xs : List String)
    → count a (sort before xs) ≡ count a xs
unfolding sort count
count-sort before a [] = refl
count-sort before a (x ∷ xs) =
    omega (arith, count-place before a x (sort before xs), count-sort before a xs)

pub count-sorted : (a : String) (xs : List String) → count a (sorted xs) ≡ count a xs
unfolding sorted
count-sorted a xs = count-sort str_le a xs

pub length-sorted : (xs : List String) → length (sorted xs) ≡ length xs
unfolding sorted
length-sorted xs = length-sort str_le xs

-- Each element is related to all that follow.
abbrev pub IsChain {ℓ κ} : {A : Type ℓ} → (A → A → Type κ) → List A → Type κ
IsChain R [] = Unit
IsChain R (x ∷ xs) = All (R x) xs × IsChain R xs

module _ {ℓ} {A : Type ℓ} (before : A → A → Bool) where
  pub place-perm : (x : A) (xs : List A) → Perm (place before x xs) (x ∷ xs)
  unfolding place
  place-perm x [] = Perm.rfl
  place-perm x (y ∷ ys) = elim (Bool-cases (before x y)) [
    | inl now ↦ rw now Perm.rfl
    | inr later ↦ rw later (Perm.trans (Perm.cons y (place-perm x ys)) (Perm.swap x y ys))
  ]

  -- Sorting keeps each element as often as it stood there.
  pub sort-perm : (xs : List A) → Perm (sort before xs) xs
  unfolding sort
  sort-perm [] = Perm.rfl
  sort-perm (x ∷ xs) = Perm.trans (place-perm x (sort before xs)) (Perm.cons x (sort-perm xs))

  -- Each element may stand before all that follow.
  abbrev pub IsSorted : List A → Type 0
  IsSorted xs = IsChain (λ x y. before x y ≡ true) xs

  module _ {κ} (R : A → A → Type κ) (yes : (x y : A) → before x y ≡ true → R x y)
      (no : (x y : A) → before x y ≡ false → R y x)
      (trans : (x y z : A) → R x y → R y z → R x z) where
    All-place : (w x : A) (xs : List A) → R w x → All (R w) xs → All (R w) (place before x xs)
    unfolding place
    All-place w x [] h a = (h, tt)
    All-place w x (y ∷ ys) h a = elim (Bool-cases (before x y)) [
      | inl now ↦ rw now (h, a)
      | inr later ↦ rw later (a.0, All-place w x ys h a.1)
    ]

    All-trans : (w x : A) (xs : List A) → R w x → All (R x) xs → All (R w) xs
    All-trans w x [] h a = tt
    All-trans w x (y ∷ ys) h a = (trans w x y h a.0, All-trans w x ys h a.1)

    place-IsChain : (x : A) (xs : List A) → IsChain R xs → IsChain R (place before x xs)
    unfolding place
    place-IsChain x [] s = (tt, tt)
    place-IsChain x (y ∷ ys) s = elim (Bool-cases (before x y)) [
      | inl now ↦ rw now ((yes x y now, All-trans x y ys (yes x y now) s.0), s)
      | inr later ↦ rw later (All-place y x ys (no x y later) s.0, place-IsChain x ys s.1)
    ]

    pub sort-IsChain : (xs : List A) → IsChain R (sort before xs)
    unfolding sort
    sort-IsChain [] = tt
    sort-IsChain (x ∷ xs) = place-IsChain x (sort before xs) (sort-IsChain xs)

  pub sort-IsSorted :
      ((x y : A) → before x y ≡ false → before y x ≡ true)
      → ((x y z : A) → before x y ≡ true → before y z ≡ true → before x z ≡ true)
      → (xs : List A) → IsSorted (sort before xs)
  sort-IsSorted total trans xs = sort-IsChain (λ x y. before x y ≡ true) (λ x y h. h) total trans xs

module _ {ℓ κ} {A : Type ℓ} (P : A → Type κ) (before : A → A → Bool) where
  All-put : (x : A) (xs : List A) → P x → All P xs → All P (place before x xs)
  unfolding place
  All-put x [] p a = (p, tt)
  All-put x (y ∷ ys) p a = elim (Bool-cases (before x y)) [
    | inl now ↦ rw now (p, a)
    | inr later ↦ rw later (a.0, All-put x ys p a.1)
  ]

  pub All-sort : (xs : List A) → All P xs → All P (sort before xs)
  unfolding sort
  All-sort [] a = tt
  All-sort (x ∷ xs) a = All-put x (sort before xs) a.0 (All-sort xs a.1)

module _ {A : Type 0} (before : A → A → Bool) where
  Has-place : (x y : A) (xs : List A) → (x ≡ y) ⊎ Has y xs → Has y (place before x xs)
  unfolding place
  Has-place x y [] (inl e) = inl e
  Has-place x y [] (inr m) = elim m [ ]
  Has-place x y (z ∷ xs) m =
      elim (before x z) as (λ b. Has y (if b then x ∷ z ∷ xs else z ∷ place before x xs)) [
        | true ↦ at_front m
        | false ↦ behind (Has-place x y xs) m
      ]
    where
      at_front : (x ≡ y) ⊎ Has y (z ∷ xs) → Has y (x ∷ z ∷ xs)
      at_front (inl e) = inl e
      at_front (inr k) = inr k

      behind :
          ((x ≡ y) ⊎ Has y xs → Has y (place before x xs))
          → (x ≡ y) ⊎ Has y (z ∷ xs)
          → Has y (z ∷ place before x xs)
      behind rest (inl e) = inr (rest (inl e))
      behind rest (inr (inl e)) = inl e
      behind rest (inr (inr k)) = inr (rest (inr k))

  pub Has-sort : (y : A) (xs : List A) → Has y xs → Has y (sort before xs)
  unfolding sort
  Has-sort y [] m = m
  Has-sort y (x ∷ xs) (inl e) = Has-place x y (sort before xs) (inl e)
  Has-sort y (x ∷ xs) (inr m) = Has-place x y (sort before xs) (inr (Has-sort y xs m))
