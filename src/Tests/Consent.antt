-- ===== src/Tests/Consent.antt =====
-- A consent that is given, and a witness for its theorem.
use sienne.Base.{String, ◌≡◌, refl, true, none, some, [], ◌∷◌, ◌++◌, ◌==◌, if◌then◌else◌}
use sienne.Base.Exec.{ok, ◌>>=◌}
use sienne.Base.Text.{trim_space, to_lower}
use sienne.Base.Text.{fields}
use sienne.Scopes.{contains, normalize_scopes, all_contained}
use sienne.Consent.{
  Service, Urls, Context, DecideInput, DecideResult, load_context, parse_authorize_return_to,
  client_for, session_in, decide,
}
use sienne.Consent.Given.{Checked, Settled, decide-Settled}
use sienne.Tests.World.{World, gives, clock, strconv, clients, sessions}

abbrev urls : Urls String String
urls = record {
  parse = λ raw. some raw;
  path = λ u. "/oauth2/authorize";
  query = λ u. u;
  get = λ q key.
      if key == "client_id"
      then "web"
      else if key == "redirect_uri"
      then "https://web/cb"
      else if key == "scope"
      then " openid  offline_access "
      else "";
  set = λ key value q. q;
  with_query = λ q u. u;
  text = λ u. u;
}

abbrev service : Service World String String
service = record {
  clients = clients;
  sessions = sessions;
  session_cache = none;
  consents = some (record {
    has_active_consent = λ user client scopes. gives true;
    upsert_active_consent = λ user client scopes at w. (ok tt, scopes ++ w);
  });
  clock = clock;
  strconv = strconv;
  urls = urls;
}

abbrev input : DecideInput
input = record { return_to = "/oauth2/authorize?x"; session_id = "sid"; action = " ACCEPT" }

abbrev result : DecideResult
result = record { redirect_uri = "/oauth2/authorize?x" }

abbrev after : World
after = "openid" ∷ "offline_access" ∷ []

accepted : decide service input [] ≡ (ok result, after)
unfolding decide ◌>>=◌ trim_space to_lower load_context parse_authorize_return_to client_for
    session_in contains all_contained normalize_scopes fields
accepted = refl

decide-Settled_example :
    (c : Context) × Checked service "/oauth2/authorize?x" "sid" [] c
    × Settled service "/oauth2/authorize?x" c after result (to_lower (trim_space " ACCEPT"))
decide-Settled_example = decide-Settled service input [] after result accepted
