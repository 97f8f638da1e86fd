-- ===== src/Token/Refresh/Replay.antt =====
-- An answer that is repeated is one that the cache keeps for this token and this request.
use sienne.Base.{subst}
use sienne.Base.{◌≡◌, refl, ap, ◌∙◌, Option, none, some}
use sienne.Base.Exec.{Fault, no_rows, other, Result, ok, err, fault, pure, fail, raise}
use sienne.Base.Exec.Success.{call-eq-ok, guard-eq-ok, pure-eq-ok}
use sienne.Base.Text.{trim_space}
use sienne.Ports.{
  ReplayStatus, replay_none, replay_grace, replay_rejected, TokenResponse, ReplayResult, TokenCache,
}
use sienne.Token.{Err, Input, Answer, Service, answer_of_response}
use sienne.Token.Refresh.{graced, replayed, seen_replay, check_replay, lost_race}

graced-eq-some :
    (status : ReplayStatus) (response : Option TokenResponse) (a : Answer)
    → graced status response ≡ some a
    → (x : TokenResponse) × (status ≡ replay_grace)
      × (response ≡ some x)
      × (answer_of_response x ≡ a)
unfolding graced
graced-eq-some replay_grace (some x) a h = (x, refl, refl, cc)
graced-eq-some replay_grace none a h = cc
graced-eq-some replay_none response a h = cc
graced-eq-some replay_rejected response a h = cc

replayed-eq-some :
    (replay : Option ReplayResult) (a : Answer)
    → replayed replay ≡ some a
    → (r : ReplayResult) × (x : TokenResponse) × (replay ≡ some r)
      × (r.status ≡ replay_grace)
      × (r.response ≡ some x)
      × (answer_of_response x ≡ a)
unfolding replayed
replayed-eq-some none a h = cc
replayed-eq-some (some r) a h =
    let (x, status, response, answer) = graced-eq-some r.status r.response a h in
    (r, x, refl, status, response, answer)

-- The answer has the response's six fields.
pub record Repeats (response : TokenResponse) (a : Answer) : Type 0 where
  pub access_token : a.access_token ≡ response.access_token
  pub token_type : a.token_type ≡ response.token_type
  pub expires_in : a.expires_in ≡ response.expires_in
  pub refresh_token : a.refresh_token ≡ response.refresh_token
  pub scope : a.scope ≡ response.scope
  pub id_token : a.id_token ≡ response.id_token

answer_of_response-Repeats : (r : TokenResponse) → Repeats r (answer_of_response r)
unfolding answer_of_response
answer_of_response-Repeats r = record {
  access_token = refl;
  token_type = refl;
  expires_in = refl;
  refresh_token = refl;
  scope = refl;
  id_token = refl;
}

-- The cache knows the token as one that was just exchanged by this very request, and has kept the
-- answer, which is the answer again.
pub record Repeated {W : Type 0} (s : Service W) (input : Input) (a : Answer) : Type 0 where
  pub cache : TokenCache W
  pub replay : ReplayResult
  pub response : TokenResponse
  pub before : W
  pub after : W
  pub configured : s.token_cache ≡ some cache
  pub seen :
      cache.check_refresh_token_replay
        (s.digest.sha256_hex input.refresh_token)
        (trim_space input.replay_fingerprint)
        before
      ≡ (ok (some replay), after)
  pub in_grace : replay.status ≡ replay_grace
  pub kept : replay.response ≡ some response
  pub answer : Repeats response a

module _ {W : Type 0} (s : Service W) where
  seen_replay-eq-some :
      (replay : Option ReplayResult) (found : Option Answer) (a : Answer) (w v : W)
      → seen_replay s replay found w ≡ (ok (some a), v)
      → found ≡ some a
  unfolding seen_replay
  seen_replay-eq-some replay (some b) a w v h = (pure-eq-ok h).0
  seen_replay-eq-some replay none a w v h =
      let (allowed, k) = guard-eq-ok _ _ _ h in cc (pure-eq-ok k).0

  pub check_replay-Repeated :
      (input : Input) (cache : Option (TokenCache W)) (a : Answer) (w v : W)
      → s.token_cache ≡ cache
      → check_replay s cache (s.digest.sha256_hex input.refresh_token) input.replay_fingerprint w
        ≡ (ok (some a), v)
      → Repeated s input a
  unfolding check_replay
  check_replay-Repeated input none a w v e h = cc (pure-eq-ok h).0
  check_replay-Repeated input (some cache) a w v e h =
      let (replay, w₁, asked, h₁) = call-eq-ok _ _ h in
      let found = seen_replay-eq-some replay _ a w₁ v h₁ in
      let (r, x, same, status, response, answer) = replayed-eq-some replay a found in
      record {
        cache = cache;
        replay = r;
        response = x;
        before = w;
        after = w₁;
        configured = e;
        seen = asked ∙ ap (λ o. (ok o, w₁)) same;
        in_grace = status;
        kept = response;
        answer = subst (Repeats x) answer (answer_of_response-Repeats x);
      }

  pub lost_race-eq-ok :
      (f : Fault) (r : Result Err (Option Answer)) (a : Answer) (w v : W)
      → lost_race s f r w ≡ (ok a, v)
      → r ≡ ok (some a)
  unfolding lost_race pure fail raise
  lost_race-eq-ok f (ok (some b)) a w v h = ap (λ x. ok (some x)) (pure-eq-ok h).0
  lost_race-eq-ok no_rows (ok none) a w v h = cc
  lost_race-eq-ok no_rows (err e) a w v h = cc
  lost_race-eq-ok no_rows (fault x) a w v h = cc
  lost_race-eq-ok (other n) (ok none) a w v h = cc
  lost_race-eq-ok (other n) (err e) a w v h = cc
  lost_race-eq-ok (other n) (fault x) a w v h = cc
