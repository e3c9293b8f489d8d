-- ===== src/Tests/Keycloak.antt =====
-- A Keycloak that knows one repository, and that is out of reach from the hundredth second on.
use deploy_gateway.Base.{
  ℕ, ◌+◌, ◌-◌, ◌*◌, ◌≡◌, ◌≢◌, refl, String, ◌==◌, true, none, some, List, [], ◌∷◌, ◌++◌, Any, ok,
  err, new_error, ltb, if◌then◌else◌,
}
use deploy_gateway.Base.Text.{strip_prefix, equal_fold}
use deploy_gateway.Base.Dict.{lookup, insert}
use deploy_gateway.Base.StateMonad.{◌>>=◌}
use deploy_gateway.Store.{second}
use deploy_gateway.Authz.{Request}
use deploy_gateway.Authz.Ref.{match_ref}
use deploy_gateway.Keycloak.Cache
use deploy_gateway.Keycloak.Cache.{Cache, new_cache}
use deploy_gateway.Keycloak.Cache.Laws.{get-put}
use deploy_gateway.Keycloak.Http.{Config, UserEntry, no_body, get_method, Server}
use deploy_gateway.Keycloak.Token.{TokenSource, token}
use deploy_gateway.Keycloak.Client.{
  Client, new_client, bearer, transmit, find_user, find_client, find_resource, refs_of, verdict_of,
  after_answer, after_attempt, resource_server_uuid, admin_call,
}
use deploy_gateway.Keycloak.Client.Laws.{Names, find_user-Names, Answered, admin_call-Answered}
use deploy_gateway.Keycloak.Questions
use deploy_gateway.Keycloak.Questions.{user_id, allowed_refs}
use deploy_gateway.Keycloak.Questions.Laws.{Said, evaluate-Said}
use deploy_gateway.Keycloak.Authorizer.{
  decision_key, permitted, keep_permit, evaluate, new_gate, authorize,
}
use deploy_gateway.Keycloak.Authorizer.History.{
  Allows, Supports, asks, passes, live, permits, given_by,
}
use deploy_gateway.Keycloak.Authorizer.Laws.{authorize-Supports}
use deploy_gateway.Keycloak.Authorizer.Grants.{Granted, evaluate-Granted}

abbrev keycloak : Server
keycloak = record {
  is_print = λ n. true;
  State = ℕ;
  Body = Unit {0};
  clock = λ h. h;
  path_escape = λ s. s;
  query_escape = λ s. s;
  build_error = λ url. none;
  post_token = λ cfg url h. (
    ok (record { status_code = 200; body = ok (record { access_token = "t"; expires_in = 60 }) }),
    h,
  );
  send = λ method url tok payload h.
      if ltb h (100 * second) then (ok (200, ok tt), h) else (err (new_error "timeout"), h);
  decode_clients = λ b. ok (record { id = "u-1"; client_id = "gateway" } ∷ []);
  decode_users = λ b. ok (record { id = "7"; username = "tuncloud/backend" } ∷ []);
  decode_status = λ b. ok "PERMIT";
  decode_resources = λ b. ok (
      record { name = "prod/web"; attributes = ("allowed_refs", "refs/heads/main" ∷ []) ∷ [] }
      ∷ []);
}

abbrev cfg : Config
cfg = record {
  base_url = "https://keycloak/";
  realm = "ci";
  client_id = "gateway";
  client_secret = "s";
}

abbrev question : Request
question = record {
  repository = "tuncloud/Backend";
  action = "deployment.restart";
  namespace = "prod";
  deployment = "web";
  ref = "refs/heads/main";
}

abbrev client : Client keycloak
client = record {
  source = record { token = ""; expires_at = 0 };
  uuid = "";
  user_ids = record { entries = []; ttl = 600 * second; stale_for = 0 };
  refs = record { entries = []; ttl = 30 * second; stale_for = 0 };
  server = 10 * second;
}

-- The permit is given at 10 seconds, and served from the cache while Keycloak is away.
authorize_outage :
    (authorize keycloak cfg question (
      live keycloak cfg
        (new_gate keycloak cfg (10 * second))
        (asks question ∷ passes (340 * second) ∷ []))).0
    ≡ ok permitted
unfolding authorize live new_gate ◌>>=◌ Cache.get Cache.get_stale Cache.put new_cache lookup insert
    evaluate user_id new_client admin_call bearer token transmit find_user equal_fold
    Questions.evaluate resource_server_uuid find_client allowed_refs find_resource refs_of match_ref
    strip_prefix after_answer after_attempt verdict_of keep_permit
authorize_outage = refl

-- A second later the grace is over.
authorize_outage_over :
    Allows
      (authorize keycloak cfg question (
        live keycloak cfg
          (new_gate keycloak cfg (10 * second))
          (asks question ∷ passes (341 * second) ∷ []))).0
    ≡ ⊥
unfolding authorize live new_gate ◌>>=◌ Cache.get Cache.get_stale Cache.put new_cache lookup insert
    evaluate user_id new_client admin_call bearer token transmit find_user equal_fold
    Questions.evaluate resource_server_uuid find_client allowed_refs find_resource refs_of match_ref
    strip_prefix after_answer after_attempt verdict_of keep_permit
authorize_outage_over = refl

authorize-Supports_example : Any (Supports (decision_key question) (340 * second)) (
    permits keycloak cfg
      (new_gate keycloak cfg (10 * second))
      (asks question ∷ passes (340 * second) ∷ [])
    ++ given_by keycloak cfg question (
        live keycloak cfg
          (new_gate keycloak cfg (10 * second))
          (asks question ∷ passes (340 * second) ∷ [])))
unfolding authorize live new_gate ◌>>=◌ Cache.get Cache.get_stale Cache.put new_cache lookup insert
    evaluate user_id new_client admin_call bearer token transmit find_user equal_fold
    Questions.evaluate resource_server_uuid find_client allowed_refs find_resource refs_of match_ref
    strip_prefix after_answer after_attempt verdict_of keep_permit
authorize-Supports_example =
    authorize-Supports keycloak cfg (10 * second) (asks question ∷ passes (340 * second) ∷ [])
      question refl

evaluate-Granted_example : Granted keycloak cfg question client
unfolding authorize live new_gate ◌>>=◌ Cache.get Cache.get_stale Cache.put new_cache lookup insert
    evaluate user_id new_client admin_call bearer token transmit find_user equal_fold
    Questions.evaluate resource_server_uuid find_client allowed_refs find_resource refs_of match_ref
    strip_prefix after_answer after_attempt verdict_of keep_permit
evaluate-Granted_example = evaluate-Granted keycloak cfg question client refl

evaluate-Said_example : Said keycloak cfg "7" "prod/web" "deployment.restart" true
unfolding authorize live new_gate ◌>>=◌ Cache.get Cache.get_stale Cache.put new_cache lookup insert
    evaluate user_id new_client admin_call bearer token transmit find_user equal_fold
    Questions.evaluate resource_server_uuid find_client allowed_refs find_resource refs_of match_ref
    strip_prefix after_answer after_attempt verdict_of keep_permit
evaluate-Said_example =
    evaluate-Said keycloak cfg "7" "prod/web" "deployment.restart" client true refl

admin_call-Answered_example :
    Answered keycloak cfg get_method "https://keycloak/admin/realms/ci/clients" no_body tt
unfolding authorize live new_gate ◌>>=◌ Cache.get Cache.get_stale Cache.put new_cache lookup insert
    evaluate user_id new_client admin_call bearer token transmit find_user equal_fold
    Questions.evaluate resource_server_uuid find_client allowed_refs find_resource refs_of match_ref
    strip_prefix after_answer after_attempt verdict_of keep_permit
admin_call-Answered_example =
    admin_call-Answered keycloak cfg get_method "https://keycloak/admin/realms/ci/clients" no_body
      client tt refl

-- The neighbour in front and the entry without an id are passed over.
abbrev users : List UserEntry
users =
    record { id = "6"; username = "tuncloud/backend-api" }
    ∷ record { id = ""; username = "tuncloud/backend" }
    ∷ record { id = "7"; username = "tuncloud/backend" }
    ∷ []

find_user-Names_example : Any (Names "tuncloud/Backend" "7") users × (◌≢◌ {A = String} "7" "")
unfolding find_user equal_fold
find_user-Names_example = find_user-Names "tuncloud/Backend" "7" users refl

abbrev no_token : TokenSource
no_token = record { token = ""; expires_at = 0 }

abbrev cache : Cache ℕ
cache = record { entries = []; ttl = 30; stale_for = 300 }

get-put_example :
    (Cache.get (Cache.put cache "k" 7 10) "k" 40 ≡ (
      if "k" == "k" then (if ltb 30 (40 - 10) then none else some 7) else Cache.get cache "k" 40))
    × (Cache.get_stale (Cache.put cache "k" 7 10) "k" 40 ≡ (
        if "k" == "k"
        then (if ltb (30 + 300) (40 - 10) then none else some 7)
        else Cache.get_stale cache "k" 40))
get-put_example = get-put cache "k" "k" 7 10 40
