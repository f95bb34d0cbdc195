-- ===== src/Prelude/Dict.antt =====
-- A Python dict with text keys, in insertion order.
use crypto_arc_v.Prelude.Tests.{if◌then◌else◌, Bool-cases}
use Prim.Native.String.{String}
use mathlib.Core.Path.{◌≡◌, refl, subst}
use mathlib.Core.Logic.{inl, inr}
use mathlib.Core.Option.{Option, none, some, some-injective}
use mathlib.Core.List.{List, [], ◌∷◌}
use native.Mathlib.Omega.{arith}
use Prim.Native.Nat.{◌+◌, ◌≤◌}
use crypto_arc_v.Prelude.Lists.{length, All, count}
use text.Mathlib.Text.{◌==◌ as str_eq}
use text.Mathlib.TextEquality.{eq_iff}

abbrev pub Dict {ℓ} : Type ℓ → Type ℓ
Dict V = List (String × V)

module _ {ℓ} {V : Type ℓ} where
  -- `d.get(k)`
  unfoldable pub lookup : String → Dict V → Option V
  lookup k [] = none
  lookup k ((j, v) ∷ d) = if str_eq j k then some v else lookup k d

  -- `d[k] = v`
  unfoldable pub insert : String → V → Dict V → Dict V
  insert k v [] = (k, v) ∷ []
  insert k v ((j, w) ∷ d) = if str_eq j k then (k, v) ∷ d else (j, w) ∷ insert k v d

  -- `d.pop(k, None)`, the dict that is left
  unfoldable pub erase : String → Dict V → Dict V
  erase k [] = []
  erase k ((j, v) ∷ d) = if str_eq j k then d else (j, v) ∷ erase k d

  pub lookup-insert :
      (k j : String) (v : V) (d : Dict V)
      → lookup j (insert k v d) ≡ (if str_eq k j then some v else lookup j d)
  unfolding lookup insert
  lookup-insert k j v [] = refl
  lookup-insert k j v ((i, w) ∷ d) =
      ground (arith, eq_iff k j, eq_iff i k, eq_iff i j, lookup-insert k j v d)

  abbrev pub keys : Dict V → List String
  keys [] = []
  keys ((k, v) ∷ d) = k ∷ keys d

  pub lookup-eq_none : (k : String) (d : Dict V) → count k (keys d) ≡ 0 → lookup k d ≡ none
  unfolding lookup
  lookup-eq_none k [] h = refl
  lookup-eq_none k ((j, v) ∷ d) h = ground (arith, lookup-eq_none k d)

  pub count-keys-pos :
      (k : String) (v : V) (d : Dict V) → lookup k d ≡ some v → 1 ≤ count k (keys d)
  unfolding lookup
  count-keys-pos k v [] h = absurd (cc)
  count-keys-pos k v ((j, w) ∷ d) h = ground (arith, count-keys-pos k v d)

  -- A new key goes to the end.
  pub count-keys-insert :
      (k : String) (v : V) (d : Dict V) (a : String)
      → lookup k d ≡ none
      → count a (keys (insert k v d)) ≡ (if str_eq k a then 1 else 0) + count a (keys d)
  unfolding lookup insert
  count-keys-insert k v [] a h = refl
  count-keys-insert k v ((j, w) ∷ d) a h = ground (arith, count-keys-insert k v d a)

  pub length-insert :
      (k : String) (v : V) (d : Dict V) → lookup k d ≡ none → length (insert k v d) ≡ length d + 1
  unfolding lookup insert
  length-insert k v [] h = refl
  length-insert k v ((j, w) ∷ d) h = ground (arith, length-insert k v d)

  pub count-keys-erase :
      (k : String) (v : V) (d : Dict V) (a : String)
      → lookup k d ≡ some v
      → (if str_eq k a then 1 else 0) + count a (keys (erase k d)) ≡ count a (keys d)
  unfolding lookup erase
  count-keys-erase k v [] a h = absurd (cc)
  count-keys-erase k v ((j, w) ∷ d) a h =
      ground (arith, count-keys-erase k v d a, eq_iff j k, eq_iff j a, eq_iff k a)

  pub length-erase :
      (k : String) (v : V) (d : Dict V) → lookup k d ≡ some v → length (erase k d) + 1 ≡ length d
  unfolding lookup erase
  length-erase k v [] h = absurd (cc)
  length-erase k v ((j, w) ∷ d) h = ground (arith, length-erase k v d)

  module _ {κ} (P : String × V → Type κ) where
    pub All-insert :
        (k : String) (v : V) (d : Dict V)
        → lookup k d ≡ none
        → P (k, v)
        → All P d
        → All P (insert k v d)
    unfolding lookup insert
    All-insert k v [] h p ps = (p, tt)
    All-insert k v ((j, w) ∷ d) h p (q, qs) = elim (Bool-cases (str_eq j k)) [
      | inl e ↦ rw e (p, qs)
      | inr e ↦ rw e (q, All-insert k v d (rw (e) at h) p qs)
    ]

    pub All-erase : (k : String) (d : Dict V) → All P d → All P (erase k d)
    unfolding erase
    All-erase k [] ps = tt
    All-erase k ((j, w) ∷ d) (q, qs) = elim (Bool-cases (str_eq j k)) [
      | inl e ↦ rw e qs
      | inr e ↦ rw e (q, All-erase k d qs)
    ]

    -- What holds of every entry holds of the one that is found.
    pub All-lookup : (k : String) (v : V) (d : Dict V) → lookup k d ≡ some v → All P d → P (k, v)
    unfolding lookup
    All-lookup k v [] h ps = absurd (cc)
    All-lookup k v ((j, w) ∷ d) h (q, qs) = elim (Bool-cases (str_eq j k)) [
      | inl e ↦ subst P (pair ((eq_iff j k).0 e) (some-injective _ _ (rw e at h))) q
      | inr e ↦ All-lookup k v d (rw e at h) qs
    ]
      where
        pair : {a b : String} {x y : V} → a ≡ b → x ≡ y → ◌≡◌ {A = String × V} (a, x) (b, y)
        pair p r = λ i. (p i, r i)
