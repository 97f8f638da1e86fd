-- ===== src/Tests/ShortUrl.antt =====
-- Short links that are made, and a witness for their theorem.
use sienne.Base.{ℕ, ◌-◌, ◌<◌, String, ◌≡◌, refl, false, none, some, [], ◌∷◌, arith}
use sienne.Base.Exec.{ok, err, ◌>>=◌}
use sienne.Base.Int.{pos}
use sienne.Base.Text.{trim_space, to_lower}
use sienne.Ports.{ShortUrls, duplicate}
use sienne.ShortUrl.{
  Service, CreateInput, CreateResult, create, attempt, generate_code, store, normalize_target_url,
  check_expiry,
}
use sienne.Base.Text.{byte_length}
use sienne.ShortUrl.Created.{Created, create-Created}
use sienne.Tests.World.{World, wrote, gives, clock}

-- The first link that it is given has a code that is there already.
abbrev repo : ShortUrls World
repo = record {
  create = λ link w. elim w [
    | [] ↦ (err duplicate, "taken" ∷ [])
    | x ∷ xs ↦ (ok tt, link.code ∷ x ∷ xs)
  ];
  find_active_by_code = λ code. gives none;
  increment_click = λ id. wrote "click";
}

abbrev service : Service World String
service = record {
  repo = repo;
  clock = clock;
  random_below = λ n. gives (n - 1);
  parse_request_uri = some;
  scheme = λ u. "https";
  host = λ u. "web";
  has_user = λ u. false;
  text_of = λ u. u;
}

below : (n drawn : ℕ) (w v : World) → service.random_below n w ≡ (ok drawn, v) → 0 < n → drawn < n
below n drawn w v h p = let e : n - 1 ≡ drawn = cc in omega (arith, e, p)

abbrev input : CreateInput
input = record {
  code = " ";
  target_url = "https://web/x ";
  expires_at = some (pos 2_000_000_000_000);
}

abbrev result : CreateResult
result = record {
  code = "ZZZZZZZ";
  target_url = "https://web/x";
  expires_at = some (pos 2_000_000_000_000);
  created_at = pos 1_000_000_000_000;
}

abbrev after : World
after = "ZZZZZZZ" ∷ "taken" ∷ []

created : create service input [] ≡ (ok result, after)
unfolding create ◌>>=◌ trim_space normalize_target_url check_expiry attempt generate_code store
    to_lower byte_length
created = refl

create-Created_example : Created service input [] after result
create-Created_example = create-Created service below input [] after result created
