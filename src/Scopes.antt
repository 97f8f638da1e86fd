-- ===== src/Scopes.antt =====
-- The scope helpers normalizeScopes, allContained and contains, which the packages
-- internal/application/authz, token and device each hold a copy of. A Go map from texts to struct{}
-- is the list of its keys.
pub mod Laws
use sienne.Base.{String, Bool, true, false, List, [], ◌∷◌, ◌==◌, if◌then◌else◌}
use sienne.Base.Text.{trim_space, is_blank}

unfoldable pub contains : List String → String → Bool
contains [] expected = false
contains (value ∷ rest) expected = if value == expected then true else contains rest expected

-- The loop, with the map of the scopes seen so far.
unfoldable pub normalize_from : List String → List String → List String
unfolding contains
normalize_from seen [] = []
normalize_from seen (raw ∷ rest) =
    let scope = trim_space raw in
    let skip = normalize_from seen rest in
    let keep = scope ∷ normalize_from (scope ∷ seen) rest in
    if is_blank scope then skip else if contains seen scope then skip else keep

unfoldable pub normalize_scopes : List String → List String
unfolding normalize_from
normalize_scopes scopes = normalize_from [] scopes

-- The keys of `allowedSet`.
unfoldable pub allowed_set : List String → List String
allowed_set [] = []
allowed_set (raw ∷ rest) =
    let value = trim_space raw in
    let keys = allowed_set rest in if is_blank value then keys else value ∷ keys

unfoldable pub each_in : List String → List String → Bool
unfolding contains
each_in set [] = true
each_in set (value ∷ rest) = if contains set value then each_in set rest else false

unfoldable pub all_contained : List String → List String → Bool
unfolding allowed_set each_in
all_contained values allowed = each_in (allowed_set allowed) values
