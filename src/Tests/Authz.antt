-- ===== src/Tests/Authz.antt =====
-- The authorize endpoint at a request that succeeds.
use sienne.Base.{◌≡◌, refl, true, none, some, [], ◌∷◌}
use sienne.Base.Exec.{ok, ◌>>=◌}
use sienne.Base.Int.{pos}
use sienne.Base.Text.{trim_space, to_upper}
use sienne.Domain.{Client}
use sienne.Authz.{
  Command, Answer, Service, code_answer, requested_scopes, find_active_session, resume, authorize,
}
use sienne.Authz.Issue.{
  Accepted, Issued, LiveSession, authorize-accepts, find_active_session-IsLive, authorize-Issued,
}
use sienne.Scopes.{contains, all_contained, normalize_scopes}
use sienne.Tests.World.{
  World, instant, clock, json, strconv, session, clients, sessions, codes, wrote, gives,
}

abbrev service : Service World
service = record {
  clients = clients;
  sessions = sessions;
  session_cache = none;
  codes = codes;
  consents = some (record {
    has_active_consent = λ user client scopes. gives true;
    upsert_active_consent = λ user client scopes at. wrote "consent";
  });
  code_ttl = pos 600_000_000_000;
  clock = clock;
  code_maker = λ w. ("fresh", w);
  json = json;
  strconv = strconv;
}

abbrev command : Command
command = record {
  response_type = "code";
  client_id = " web ";
  redirect_uri = "https://web/cb";
  scope = "openid" ∷ " " ∷ "openid" ∷ [];
  state = "st";
  user_id = "";
  code_challenge = "proof";
  code_challenge_method = "s256";
  session_id = "sid";
  nonce = "n";
}

authorized : authorize service (some command) [] ≡ (ok (code_answer command "fresh"), "fresh" ∷ [])
unfolding authorize ◌>>=◌ trim_space contains all_contained normalize_scopes to_upper
authorized = refl

abbrev answer : Answer
answer = code_answer command "fresh"

authorize-accepts_example :
    (c : Client) × (w₁ : World) × (clients.find_by_client_id (trim_space " web ") []
      ≡ (ok (some c), w₁))
    × Accepted command c
    × (resume service command c (requested_scopes command.scope) w₁ ≡ (ok answer, "fresh" ∷ []))
authorize-accepts_example = authorize-accepts service command [] ("fresh" ∷ []) answer authorized

authorize-Issued_example :
    (c : Client) × (w₁ : World) × (clients.find_by_client_id (trim_space " web ") []
      ≡ (ok (some c), w₁))
    × Accepted command c
    × Issued service command c w₁ ("fresh" ∷ []) answer
authorize-Issued_example =
    authorize-Issued service command [] ("fresh" ∷ []) answer authorized refl refl

found : find_active_session service "sid" [] ≡ (ok (some session), [])
unfolding find_active_session ◌>>=◌
found = refl

find_active_session-IsLive_example : LiveSession service "sid" instant session
find_active_session-IsLive_example = find_active_session-IsLive service "sid" [] [] session found
