-- ===== src/Prelude/Checks.antt =====
-- Tables of checks: a Boolean that says whether the check has failed, and the reason it reports.
-- `failing` is the comprehension `[reason for failed, reason in checks if failed]` and a row of
-- `if failed: blockers.append(reason)`; `block_all` is a row of `if failed: block(reason)`, where
-- `block` appends what is not yet there.
use crypto_arc_v.Prelude.Tests.{if◌then◌else◌}
use crypto_arc_v.Prelude.Lists.{contains, is_nil}
use Prim.Native.String.{String}
use mathlib.Core.Path.{◌≡◌, refl}
use mathlib.Core.Logic.{◌↔◌}
use mathlib.Core.Bool.{Bool, true, false}
use mathlib.Core.Option.{Option, none, some}
use mathlib.Core.List.{List, [], ◌∷◌, ◌++◌}
use native.Mathlib.Omega.{arith}

abbrev pub Checks : Type 0
Checks = List (Bool × String)

unfoldable pub failing : Checks → List String
failing [] = []
failing ((failed, reason) ∷ cs) = let rest = failing cs in if failed then reason ∷ rest else rest

-- Every check of the table passes.
abbrev pub AllPass : Checks → Type 0
AllPass [] = Unit
AllPass ((failed, reason) ∷ cs) = (failed ≡ false) × AllPass cs

pub failing-nil : (cs : Checks) → AllPass cs → failing cs ≡ []
unfolding failing
failing-nil [] p = refl
failing-nil ((failed, reason) ∷ cs) p = ground (arith, failing-nil cs p.1)

pub AllPass-of_failing : (cs : Checks) → failing cs ≡ [] → AllPass cs
unfolding failing
AllPass-of_failing [] e = tt
AllPass-of_failing ((true, reason) ∷ cs) e = absurd (cc)
AllPass-of_failing ((false, reason) ∷ cs) e = (refl, AllPass-of_failing cs e)

pub is_nil-failing : (cs : Checks) → is_nil (failing cs) ≡ true → AllPass cs
unfolding failing
is_nil-failing [] e = tt
is_nil-failing ((true, reason) ∷ cs) e = absurd (cc)
is_nil-failing ((false, reason) ∷ cs) e = (refl, is_nil-failing cs e)

-- One table is at least as strict as another, check by check.
abbrev pub Stricter : Checks → Checks → Type 0
Stricter [] [] = Unit
Stricter ((f, _) ∷ cs) ((g, _) ∷ ds) = (f ≡ false → g ≡ false) × Stricter cs ds
Stricter _ _ = ⊥

pub AllPass-mono : (cs ds : Checks) → Stricter cs ds → AllPass cs → AllPass ds
AllPass-mono [] [] s p = tt
AllPass-mono ((f, _) ∷ cs) ((g, _) ∷ ds) (s, ss) (p, ps) = (s p, AllPass-mono cs ds ss ps)
AllPass-mono [] (d ∷ ds) s p = absurd s
AllPass-mono (c ∷ cs) [] s p = absurd s

pub failing-append : (cs ds : Checks) → failing (cs ++ ds) ≡ failing cs ++ failing ds
unfolding failing
failing-append [] ds = refl
failing-append ((failed, reason) ∷ cs) ds = ground (arith, failing-append cs ds)

-- `def block(value): if value not in blockers: blockers.append(value)`
unfoldable pub block : List String → String → List String
block blockers value = if contains value blockers then blockers else blockers ++ (value ∷ [])

unfoldable pub block_all : List String → Checks → List String
unfolding block
block_all blockers [] = blockers
block_all blockers ((failed, reason) ∷ cs) =
    block_all (if failed then block blockers reason else blockers) cs

pub block_all-pass : (cs : Checks) (bs : List String) → AllPass cs → block_all bs cs ≡ bs
unfolding block_all
block_all-pass [] bs p = refl
block_all-pass ((true, reason) ∷ cs) bs p = absurd (cc)
block_all-pass ((false, reason) ∷ cs) bs p = block_all-pass cs bs p.1

-- Once there is a blocker the list stays non-empty.
pub is_nil-block_all :
    (cs : Checks) (bs : List String) → is_nil bs ≡ false → is_nil (block_all bs cs) ≡ false
unfolding block_all
is_nil-block_all [] bs h = h
is_nil-block_all ((true, reason) ∷ cs) [] h = absurd (cc)
is_nil-block_all ((true, reason) ∷ cs) (b ∷ bs) h =
    is_nil-block_all cs (block (b ∷ bs) reason) (grow b bs reason)
  where
    grow : (b : String) (bs : List String) (r : String) → is_nil (block (b ∷ bs) r) ≡ false
    grow b bs r = ground arith
is_nil-block_all ((false, reason) ∷ cs) bs h = is_nil-block_all cs bs h

pub AllPass-of_block_all : (cs : Checks) → is_nil (block_all [] cs) ≡ true → AllPass cs
unfolding block_all
AllPass-of_block_all [] e = tt
AllPass-of_block_all ((true, reason) ∷ cs) e =
    absurd (false≢true' (is_nil-block_all cs (block [] reason) refl) e)
  where
    false≢true' : {b : Bool} → b ≡ false → b ≡ true → ⊥
    false≢true' p q = cc
AllPass-of_block_all ((false, reason) ∷ cs) e = (refl, AllPass-of_block_all cs e)

-- A row of `if failed: return reason`: the reason of the first check that fails.
unfoldable pub first_failing : Checks → Option String
first_failing [] = none
first_failing ((failed, reason) ∷ cs) =
    let rest = first_failing cs in if failed then some reason else rest

pub first_failing-append :
    (cs ds : Checks)
    → first_failing (cs ++ ds)
      ≡ elim (first_failing cs) [ some reason ↦ some reason | none ↦ first_failing ds ]
unfolding first_failing
first_failing-append [] ds = refl
first_failing-append ((true, reason) ∷ cs) ds = refl
first_failing-append ((false, reason) ∷ cs) ds = first_failing-append cs ds

pub first_failing-none : (cs : Checks) → AllPass cs → first_failing cs ≡ none
unfolding first_failing
first_failing-none [] p = refl
first_failing-none ((failed, reason) ∷ cs) p = ground (arith, first_failing-none cs p.1)

pub AllPass-of_first_failing : (cs : Checks) → first_failing cs ≡ none → AllPass cs
unfolding first_failing
AllPass-of_first_failing [] e = tt
AllPass-of_first_failing ((true, reason) ∷ cs) e = absurd (cc)
AllPass-of_first_failing ((false, reason) ∷ cs) e = (refl, AllPass-of_first_failing cs e)

-- Two tables pass together if each does.
pub AllPass-append_iff : (cs ds : Checks) → AllPass (cs ++ ds) ↔ (AllPass cs × AllPass ds)
AllPass-append_iff [] ds = (λ p. (tt, p), λ (_, p). p)
AllPass-append_iff ((failed, reason) ∷ cs) ds = (
  λ (p, ps). let (qs, rs) = (AllPass-append_iff cs ds).0 ps in ((p, qs), rs),
  λ ((p, qs), rs). (p, (AllPass-append_iff cs ds).1 (qs, rs)),
)
