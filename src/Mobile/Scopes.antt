-- ===== src/Mobile/Scopes.antt =====
-- The scopes of a mobile device: `_normalize_mobile_scopes` of backend/app/core/state.py.
pub mod Normal
use crypto_arc_v.Prelude.{String, Bool, true, false, List, [], ◌∷◌, if◌then◌else◌, contains}

abbrev pub mobile_monitor_scope : String
mobile_monitor_scope = "mobile:monitor"

abbrev pub mobile_default_scopes : List String
mobile_default_scopes = mobile_monitor_scope ∷ "mobile:control" ∷ []

abbrev pub mobile_allowed_scopes : List String
mobile_allowed_scopes =
    mobile_monitor_scope ∷ "mobile:control" ∷ "mobile:portfolio:read" ∷ "mobile:trade:review"
    ∷ "mobile:trade:execute" ∷ "mobile:wallet:read" ∷ "mobile:treasury:request" ∷ "mobile:alerts"
    ∷ "mobile:diagnostics" ∷ []

-- `scope in self.MOBILE_ALLOWED_SCOPES`
unfoldable pub is_allowed : String → Bool
is_allowed scope = contains scope mobile_allowed_scopes

unfoldable pub allowed_scopes : List String → List String
allowed_scopes [] = []
allowed_scopes (scope ∷ scopes) =
    let rest = allowed_scopes scopes in if is_allowed scope then scope ∷ rest else rest

-- `list(dict.fromkeys(scopes))`, without those that came before
unfoldable pub unique_from : List String → List String → List String
unique_from seen [] = []
unique_from seen (scope ∷ scopes) =
    let rest = unique_from seen scopes in
    let new_rest = unique_from (scope ∷ seen) scopes in
    if contains scope seen then rest else scope ∷ new_rest

-- `scopes or list(self.MOBILE_DEFAULT_SCOPES)`
unfoldable pub requested_scopes : List String → List String
requested_scopes [] = mobile_default_scopes
requested_scopes (scope ∷ scopes) = scope ∷ scopes

-- `_normalize_mobile_scopes`
unfoldable pub normalize_mobile_scopes : List String → List String
unfolding allowed_scopes unique_from requested_scopes
normalize_mobile_scopes scopes =
    let clean = allowed_scopes (requested_scopes scopes) in
    unique_from []
      (if contains mobile_monitor_scope clean then clean else mobile_monitor_scope ∷ clean)
