-- ===== src/Prelude/Lists.antt =====
-- Lists measured by native numbers, and Python's `in` on lists and sets of texts.
use Prim.Native.Nat.{ℕ, zero, suc, ◌+◌, ◌<◌, ◌≤◌, min}
use Prim.Native.String.{String}
use mathlib.Core.Path.{◌≡◌, refl, ap, ◌∙◌}
use mathlib.Core.Logic.{◌⊎◌, inl, inr, ◌↔◌}
use mathlib.Core.Bool.{Bool, true, false, ◌||◌, ◌&&◌}
use mathlib.Core.List.{List, [], ◌∷◌, ◌++◌, map}
use native.Mathlib.Omega.{arith}
use text.Mathlib.Text.{◌==◌}
use text.Mathlib.TextEquality.{eq_iff}
use murmur_ai_harness.Prelude.Tests.{if◌then◌else◌}

module _ {ℓ} {A : Type ℓ} where
  abbrev pub length : List A → ℕ
  length [] = 0
  length (x ∷ xs) = suc (length xs)

  abbrev pub take : ℕ → List A → List A
  take zero xs = []
  take (suc n) [] = []
  take (suc n) (x ∷ xs) = x ∷ take n xs

  abbrev pub drop : ℕ → List A → List A
  drop zero xs = xs
  drop (suc n) [] = []
  drop (suc n) (x ∷ xs) = drop n xs

  pub length-append : (xs ys : List A) → length (xs ++ ys) ≡ length xs + length ys
  length-append [] ys = omega arith
  length-append (x ∷ xs) ys = omega (arith, length-append xs ys)

  pub take-append-drop : (n : ℕ) (xs : List A) → take n xs ++ drop n xs ≡ xs
  take-append-drop zero xs = refl
  take-append-drop (suc n) [] = refl
  take-append-drop (suc n) (x ∷ xs) = ap (λ l. x ∷ l) (take-append-drop n xs)

  pub length-take : (n : ℕ) (xs : List A) → length (take n xs) ≡ min n (length xs)
  length-take zero xs = omega arith
  length-take (suc n) [] = omega arith
  length-take (suc n) (x ∷ xs) = omega (arith, length-take n xs)

-- The elements that pass a test: a list comprehension with an `if`.
unfoldable pub select {ℓ} : {A : Type ℓ} → (A → Bool) → List A → List A
select p [] = []
select p (x ∷ xs) = if p x then x ∷ select p xs else select p xs

abbrev pub All {ℓ κ} : {A : Type ℓ} → (A → Type κ) → List A → Type κ
All P [] = Unit
All P (x ∷ xs) = P x × All P xs

unfoldable pub all {ℓ} : {A : Type ℓ} → (A → Bool) → List A → Bool
all p [] = true
all p (x ∷ xs) = p x && all p xs

unfoldable pub any {ℓ} : {A : Type ℓ} → (A → Bool) → List A → Bool
any p [] = false
any p (x ∷ xs) = p x || any p xs

-- `a in xs`
unfoldable pub contains : List String → String → Bool
contains [] a = false
contains (x ∷ xs) a = x == a || contains xs a

-- No text stands twice in the list.
abbrev pub IsUnique : List String → Type 0
IsUnique [] = Unit
IsUnique (x ∷ xs) = (contains xs x ≡ false) × IsUnique xs

-- How often a text stands in a list.
unfoldable pub count : String → List String → ℕ
count a [] = 0
count a (x ∷ xs) = (if x == a then 1 else 0) + count a xs

pub count-append : (a : String) (xs ys : List String) → count a (xs ++ ys) ≡ count a xs + count a ys
unfolding count
count-append a [] ys = omega arith
count-append a (x ∷ xs) ys = omega (arith, count-append a xs ys)

pub contains-append :
    (xs ys : List String) (a : String) → contains (xs ++ ys) a ≡ (contains xs a || contains ys a)
unfolding contains
contains-append [] ys a = refl
contains-append (x ∷ xs) ys a = ground (arith, contains-append xs ys a)

pub contains→count : (a : String) (xs : List String) → contains xs a ≡ true → 0 < count a xs
unfolding contains count
contains→count a [] h = ground arith
contains→count a (x ∷ xs) h = ground (arith, contains→count a xs)

pub count→contains : (a : String) (xs : List String) → 0 < count a xs → contains xs a ≡ true
unfolding contains count
count→contains a [] h = ground arith
count→contains a (x ∷ xs) h = ground (arith, count→contains a xs)

pub length-map {ℓ κ} :
    {A : Type ℓ} {B : Type κ} (xs : List A) (f : A → B) → length (map f xs) ≡ length xs
length-map [] f = refl
length-map (x ∷ xs) f = ap suc (length-map xs f)

-- `a` stands in the list.
abbrev pub Has : {A : Type 0} → A → List A → Type 0
Has a [] = ⊥
Has a (x ∷ xs) = (x ≡ a) ⊎ Has a xs

-- Two lists of one length, element by element.
abbrev pub Zip : {A B : Type 0} → (A → B → Type 0) → List A → List B → Type 0
Zip R [] [] = Unit
Zip R [] (y ∷ ys) = ⊥
Zip R (x ∷ xs) [] = ⊥
Zip R (x ∷ xs) (y ∷ ys) = R x y × Zip R xs ys

pub All-map {ℓ κ μ} :
    {A : Type ℓ} (P : A → Type κ) (Q : A → Type μ) (xs : List A)
    → ((x : A) → P x → Q x)
    → All P xs
    → All Q xs
All-map P Q [] f h = tt
All-map P Q (x ∷ xs) f h = (f x h.0, All-map P Q xs f h.1)

pub All-intro {ℓ} :
    {A : Type 0} (P : A → Type ℓ) (xs : List A) → ((x : A) → Has x xs → P x) → All P xs
All-intro P [] f = tt
All-intro P (x ∷ xs) f = (f x (inl refl), All-intro P xs (λ y m. f y (inr m)))

pub map-cong {ℓ κ} :
    {A : Type ℓ} {B : Type κ} (f g : A → B) (xs : List A)
    → All (λ x. f x ≡ g x) xs
    → map f xs ≡ map g xs
map-cong f g [] h = refl
map-cong f g (x ∷ xs) h = rw (h.0, map-cong f g xs h.1) refl

pub All-Has :
    {A : Type 0} (xs ys : List A) → ((x : A) → Has x xs → Has x ys) → All (λ x. Has x ys) xs
All-Has xs ys f = All-intro (λ x. Has x ys) xs f

pub Has-map : {A B : Type 0} (f : A → B) (x : A) (xs : List A) → Has x xs → Has (f x) (map f xs)
Has-map f x [] m = elim m [ ]
Has-map f x (y ∷ xs) (inl e) = inl (ap f e)
Has-map f x (y ∷ xs) (inr m) = inr (Has-map f x xs m)

length-if :
    {A : Type 0} (b : Bool) (x : A) (xs : List A)
    → length (if b then x ∷ xs else xs) ≡ (if b then 1 else 0) + length xs
length-if true x xs = omega arith
length-if false x xs = omega arith

pub length-select-cons :
    {A : Type 0} (p : A → Bool) (x : A) (xs : List A)
    → length (select p (x ∷ xs)) ≡ (if p x then 1 else 0) + length (select p xs)
unfolding select
length-select-cons p x xs = length-if (p x) x (select p xs)

pub length-select : {A : Type 0} (p : A → Bool) (xs : List A) → length (select p xs) ≤ length xs
unfolding select
length-select p [] = omega arith
length-select p (x ∷ xs) = ground (arith, length-select-cons p x xs, length-select p xs)

Has-if :
    {A : Type 0} (b : Bool) (x y : A) (xs : List A) → Has x xs → Has x (if b then y ∷ xs else xs)
Has-if true x y xs m = inr m
Has-if false x y xs m = m

pub Has-select :
    {A : Type 0} (test : A → Bool) (x : A) (xs : List A)
    → test x ≡ true
    → Has x xs
    → Has x (select test xs)
unfolding select
Has-select test x [] t m = elim m [ ]
Has-select test x (y ∷ xs) t (inl e) = rw (ap test e ∙ t) (inl e)
Has-select test x (y ∷ xs) t (inr m) =
    Has-if (test y) x y (select test xs) (Has-select test x xs t m)

pub Has-last : {A : Type 0} (xs : List A) (x : A) → Has x (xs ++ x ∷ [])
Has-last [] x = inl refl
Has-last (y ∷ xs) x = inr (Has-last xs x)

pub Has→contains : (a : String) (xs : List String) → Has a xs → contains xs a ≡ true
unfolding contains
Has→contains a [] m = elim m [ ]
Has→contains a (x ∷ xs) (inl e) = ground (arith, eq_iff x a)
Has→contains a (x ∷ xs) (inr m) = ground (arith, Has→contains a xs m)

pub append-eq-nil {ℓ} : {A : Type ℓ} (xs ys : List A) → (xs ++ ys ≡ []) ↔ ((xs ≡ []) × (ys ≡ []))
append-eq-nil [] ys = (λ h. (refl, h), λ h. h.1)
append-eq-nil (x ∷ xs) ys = (λ h. cc, λ h. cc)
