-- ===== src/Http/Health.antt =====
-- HealthHandler of src/http/health_handler.cpp.
use sip_event_processor.Prelude.{
  ℕ, ◌≡◌, ◌↔◌, Bool, true, false, not, ◌&&◌, Option, none, some, [], ◌++◌, Text, codes, to_string,
  arith, if◌then◌else◌,
}
use sip_event_processor.Persistence.Client.{MongoClient}
use sip_event_processor.Http.Server.{Response, responds, HttpServer, default_response, route}

-- The components as the handler asks them; a null pointer is `none`: whether the SIP stack runs,
-- whether the presence client is connected and to which server, and how many presence servers are
-- healthy.
pub record Dependencies : Type 0 where
  pub sip_stack : Option Bool
  pub has_dispatcher : Bool
  pub mongo_enabled : Bool
  pub mongo : Option MongoClient
  pub presence_client : Option (Bool × Text)
  pub failover_mgr : Option ℕ

abbrev pub bool_text : Bool → Text
bool_text true = codes "true"
bool_text false = codes "false"

abbrev pub sip_ok : Dependencies → Bool
sip_ok deps = elim deps.sip_stack [ none ↦ false | some running ↦ running ]

abbrev pub mongo_ok : Dependencies → Bool
mongo_ok deps = elim deps.mongo [ none ↦ false | some m ↦ m.connected ]

abbrev pub presence_ok : Dependencies → Bool
presence_ok deps = elim deps.presence_client [ none ↦ false | some (connected, _) ↦ connected ]

unfoldable pub handle_health : Dependencies → Response
handle_health deps =
    let healthy =
      if not (sip_ok deps)
      then false
      else if deps.mongo_enabled && not (mongo_ok deps)
      then false
      else true in
    record default_response {
      status_code = if healthy then 200 else 503;
      body =
          codes "{\"sip_stack\":"
          ++ bool_text (sip_ok deps)
          ++ codes ",\"dispatcher\":"
          ++ bool_text deps.has_dispatcher
          ++ (if deps.mongo_enabled then codes ",\"mongodb\":" ++ bool_text (mongo_ok deps) else [])
          ++ codes ",\"presence_feed\":"
          ++ bool_text (presence_ok deps)
          ++ elim deps.presence_client [
            | none ↦ []
            | some (_, server) ↦ codes ",\"presence_server\":\"" ++ server ++ codes "\""
          ]
          ++ elim deps.failover_mgr [
            | none ↦ []
            | some n ↦ codes ",\"presence_healthy_servers\":" ++ to_string n
          ]
          ++ codes ",\"healthy\":"
          ++ bool_text healthy
          ++ codes ",\"degraded\":"
          ++ bool_text (not (presence_ok deps))
          ++ codes "}";
    }

unfoldable pub handle_ready : Dependencies → Response
handle_ready deps =
    let base = sip_ok deps && deps.has_dispatcher in
    let ready = if deps.mongo_enabled then base && mongo_ok deps else base in
    record default_response {
      status_code = if ready then 200 else 503;
      body = if ready then codes "{\"ready\":true}" else codes "{\"ready\":false}";
    }

-- `deps` is copied when the routes are registered; what its pointers lead to is read at each
-- request.
unfoldable pub register_routes : Dependencies → HttpServer → HttpServer
register_routes deps s =
    route (codes "GET") (codes "/ready") (λ req. responds (handle_ready deps))
      (route (codes "GET") (codes "/health") (λ req. responds (handle_health deps)) s)

-- The service reports that it is ready exactly if it reports that it is healthy and there is a
-- dispatcher; the presence feed counts for neither.
pub handle_ready-handle_health :
    (deps : Dependencies)
    → ((handle_ready deps).status_code ≡ 200)
      ↔ (((handle_health deps).status_code ≡ 200) × (deps.has_dispatcher ≡ true))
unfolding handle_ready handle_health
handle_ready-handle_health deps = ground arith
