-- ===== src/Prelude/Lists.antt =====
-- Lists measured by native numbers, and predicates on lists by recursion.
use Prim.Native.Nat.{ℕ, zero, suc, ◌+◌, ◌-◌, ◌≤◌, min}
use Prim.Native.String.{String}
use mathlib.Core.Path.{◌≡◌, refl, ap, subst}
use mathlib.Core.Logic.{◌⊎◌, inl, inr}
use mathlib.Core.Bool.{Bool, true, false, ◌||◌, false≢true}
use mathlib.Core.List.{List, [], ◌∷◌, ◌++◌}
use native.Mathlib.Omega.{arith}
use text.Mathlib.Text.{◌==◌ as str_eq}
use text.Mathlib.TextEquality.{eq_iff}
use crypto_arc_v.Prelude.Tests.{if◌then◌else◌, Bool-cases}

module _ {ℓ} {A : Type ℓ} where
  abbrev pub length : List A → ℕ
  length [] = 0
  length (x ∷ xs) = suc (length xs)

  abbrev pub take : ℕ → List A → List A
  take zero xs = []
  take (suc n) [] = []
  take (suc n) (x ∷ xs) = x ∷ take n xs

  abbrev pub drop : ℕ → List A → List A
  drop zero xs = xs
  drop (suc n) [] = []
  drop (suc n) (x ∷ xs) = drop n xs

  abbrev pub All {κ} : (A → Type κ) → List A → Type κ
  All P [] = Unit
  All P (x ∷ xs) = P x × All P xs

  abbrev pub is_nil : List A → Bool
  is_nil [] = true
  is_nil (x ∷ xs) = false

  pub length-append : (xs ys : List A) → length (xs ++ ys) ≡ length xs + length ys
  length-append [] ys = omega arith
  length-append (x ∷ xs) ys = omega (arith, length-append xs ys)

  pub take-append-drop : (n : ℕ) (xs : List A) → take n xs ++ drop n xs ≡ xs
  take-append-drop zero xs = refl
  take-append-drop (suc n) [] = refl
  take-append-drop (suc n) (x ∷ xs) = ap (◌∷◌ x) (take-append-drop n xs)

  pub length-take : (n : ℕ) (xs : List A) → length (take n xs) ≡ min n (length xs)
  length-take zero xs = omega arith
  length-take (suc n) [] = omega arith
  length-take (suc n) (x ∷ xs) = omega (arith, length-take n xs)

  pub length-drop : (n : ℕ) (xs : List A) → length (drop n xs) ≡ length xs - n
  length-drop zero xs = omega arith
  length-drop (suc n) [] = omega arith
  length-drop (suc n) (x ∷ xs) = omega (arith, length-drop n xs)

  pub All-append {κ} : (P : A → Type κ) (xs ys : List A) → All P xs → All P ys → All P (xs ++ ys)
  All-append P [] ys _ q = q
  All-append P (x ∷ xs) ys (p, ps) q = (p, All-append P xs ys ps q)

-- How often a text occurs in a list.
abbrev pub count : String → List String → ℕ
count a [] = 0
count a (x ∷ xs) = (if str_eq x a then 1 else 0) + count a xs

-- `a in xs`
abbrev pub contains : String → List String → Bool
contains a [] = false
contains a (x ∷ xs) = str_eq x a || contains a xs

pub count-append : (a : String) (xs ys : List String) → count a (xs ++ ys) ≡ count a xs + count a ys
count-append a [] ys = omega arith
count-append a (x ∷ xs) ys = omega (arith, count-append a xs ys)

pub contains-eq_false : (a : String) (xs : List String) → contains a xs ≡ false → count a xs ≡ 0
contains-eq_false a [] h = refl
contains-eq_false a (x ∷ xs) h = ground (arith, contains-eq_false a xs)

pub contains-eq_true : (a : String) (xs : List String) → contains a xs ≡ true → 1 ≤ count a xs
contains-eq_true a [] h = ground arith
contains-eq_true a (x ∷ xs) h = ground (arith, contains-eq_true a xs)

pub contains_of_count : (a : String) (xs : List String) → 1 ≤ count a xs → contains a xs ≡ true
contains_of_count a [] h = ground arith
contains_of_count a (x ∷ xs) h = ground (arith, contains_of_count a xs)

-- `xs.discard(a)` on a set
unfoldable pub discard : String → List String → List String
discard a [] = []
discard a (x ∷ xs) = let rest = discard a xs in if str_eq x a then rest else x ∷ rest

pub count-discard :
    (a b : String) (xs : List String)
    → count b (discard a xs) ≡ (if str_eq a b then 0 else count b xs)
unfolding discard
count-discard a b [] = ground arith
count-discard a b (x ∷ xs) =
    ground (arith, count-discard a b xs, eq_iff x a, eq_iff x b, eq_iff a b)

-- What holds of every text of a list holds of one that is found in it.
pub All-contains {κ} :
    (P : String → Type κ) (a : String) (xs : List String) → All P xs → contains a xs ≡ true → P a
All-contains P a [] ps h = absurd (false≢true h)
All-contains P a (x ∷ xs) (p, ps) h = elim (Bool-cases (str_eq x a)) [
  | inl e ↦ subst P ((eq_iff x a).0 e) p
  | inr e ↦ All-contains P a xs ps (rw e at h)
]

module _ {ℓ} {A : Type ℓ} where
  pub take-append :
      (n : ℕ) (xs ys : List A)
      → (length xs ≡ n) ⊎ ((length xs ≤ n) × (ys ≡ []))
      → take n (xs ++ ys) ≡ xs
  take-append zero [] ys h = refl
  take-append zero (x ∷ xs) ys h = absurd (ground arith)
  take-append (suc n) [] [] h = refl
  take-append (suc n) [] (y ∷ ys) h = absurd (ground arith)
  take-append (suc n) (x ∷ xs) ys h = ap (◌∷◌ x) (take-append n xs ys (ground arith))

  pub drop-append : (xs ys : List A) → drop (length xs) (xs ++ ys) ≡ ys
  drop-append [] ys = refl
  drop-append (x ∷ xs) ys = drop-append xs ys

  -- The first `n` items and those after them.
  pub take-append-drop-length :
      (n : ℕ) (xs : List A)
      → (take n xs ++ drop (length (take n xs)) xs ≡ xs)
        × (length (take n xs) ≤ n)
        × ((length (take n xs) ≡ n) ⊎ (drop (length (take n xs)) xs ≡ []))
  take-append-drop-length zero xs = (refl, omega arith, inl refl)
  take-append-drop-length (suc n) [] = (refl, omega arith, inr refl)
  take-append-drop-length (suc n) (x ∷ xs) =
      let (whole, small, last) = take-append-drop-length n xs in
      (ap (◌∷◌ x) whole, omega arith, ground arith)

  pub take-nil : (n : ℕ) → ◌≡◌ {A = List A} (take n []) []
  take-nil zero = refl
  take-nil (suc n) = refl

  pub drop-nil : (n : ℕ) → ◌≡◌ {A = List A} (drop n []) []
  drop-nil zero = refl
  drop-nil (suc n) = refl
