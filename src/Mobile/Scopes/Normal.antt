-- ===== src/Mobile/Scopes/Normal.antt =====
-- The scopes that a device can be given.
use crypto_arc_v.Prelude.{
  ◌≤◌, inl, inr, ◌≡◌, refl, sym, ap, ◌∙◌, String, Bool, true, false, not, ◌&&◌, ◌||◌, List, [], ◌∷◌,
  str_eq, contains, count, arith, eq_iff, Bool-cases, contains-eq_false,
}
use crypto_arc_v.Mobile.Scopes.{
  mobile_monitor_scope, is_allowed, allowed_scopes, unique_from, requested_scopes,
  normalize_mobile_scopes,
}

contains-allowed_scopes :
    (a : String) (scopes : List String)
    → contains a (allowed_scopes scopes) ≡ (is_allowed a && contains a scopes)
unfolding allowed_scopes
contains-allowed_scopes a [] = ground arith
contains-allowed_scopes a (s ∷ scopes) = elim (Bool-cases (str_eq s a)) [
  | inl e ↦
      let same : is_allowed s ≡ is_allowed a = ap is_allowed ((eq_iff s a).0 e) in
      ground (arith, same, e, contains-allowed_scopes a scopes)
  | inr e ↦ ground (arith, e, contains-allowed_scopes a scopes)
]

contains-unique_from :
    (a : String) (seen scopes : List String)
    → contains a (unique_from seen scopes) ≡ (contains a scopes && not (contains a seen))
unfolding unique_from
contains-unique_from a seen [] = refl
contains-unique_from a seen (s ∷ scopes) = elim (Bool-cases (str_eq s a)) [
  | inl e ↦
      let same : contains s seen ≡ contains a seen = ap (λ x. contains x seen) ((eq_iff s a).0 e) in
      ground (
        arith,
        same,
        e,
        contains-unique_from a seen scopes,
        contains-unique_from a (s ∷ seen) scopes,
      )
  | inr e ↦
      ground
        (arith, e, contains-unique_from a seen scopes, contains-unique_from a (s ∷ seen) scopes)
]

count-unique_from : (a : String) (seen scopes : List String) → count a (unique_from seen scopes) ≤ 1
unfolding unique_from
count-unique_from a seen [] = omega arith
count-unique_from a seen (s ∷ scopes) = ground (
  arith,
  count-unique_from a seen scopes,
  count-unique_from a (s ∷ seen) scopes,
  contains-unique_from a (s ∷ seen) scopes,
  contains-eq_false a (unique_from (s ∷ seen) scopes),
)

and_true : (b : Bool) → (b && not false) ≡ b
and_true true = refl
and_true false = refl

-- A list that contains the scope to monitor
monitored :
    (a : String) (clean : List String) (b : Bool)
    → contains mobile_monitor_scope clean ≡ true
    → contains a clean ≡ b
    → b ≡ (str_eq mobile_monitor_scope a || b)
monitored a clean b h e = elim (Bool-cases (str_eq mobile_monitor_scope a)) [
  | inr d ↦ rw d refl
  | inl d ↦
      rw d (sym e ∙ ap (λ x. contains x clean) (sym ((eq_iff mobile_monitor_scope a).0 d)) ∙ h)
]

-- The scopes that a device is given: the one to monitor always, and each other scope exactly when it is requested
-- (no request stands for the two default scopes) and is one of the allowed ones; none of them twice.
pub normalize_mobile_scopes_lem :
    (a : String) (scopes : List String)
    → (contains a (normalize_mobile_scopes scopes)
        ≡ (str_eq mobile_monitor_scope a || (is_allowed a && contains a (requested_scopes scopes))))
      × (count a (normalize_mobile_scopes scopes) ≤ 1)
unfolding normalize_mobile_scopes
normalize_mobile_scopes_lem a scopes =
    let clean = allowed_scopes (requested_scopes scopes) in
    elim (Bool-cases (contains mobile_monitor_scope clean)) [
      | inl e ↦ rw e (
        contains-unique_from a [] clean
            ∙ and_true (contains a clean)
            ∙ contains-allowed_scopes a (requested_scopes scopes)
            ∙ monitored a clean _ e (contains-allowed_scopes a (requested_scopes scopes)),
        count-unique_from a [] clean,
      )
      | inr e ↦ rw e (
        contains-unique_from a [] (mobile_monitor_scope ∷ clean)
            ∙ and_true (contains a (mobile_monitor_scope ∷ clean))
            ∙ ap (λ b. str_eq mobile_monitor_scope a || b)
                (contains-allowed_scopes a (requested_scopes scopes)),
        count-unique_from a [] (mobile_monitor_scope ∷ clean),
      )
    ]
