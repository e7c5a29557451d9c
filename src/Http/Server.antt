-- ===== src/Http/Server.antt =====
-- HttpServer of include/http/http_server.h and src/http/http_server.cpp, without the sockets:
-- what it makes of the bytes of one request. A handler gives a response, or the text of what it
-- throws.
pub mod Query
use sip_event_processor.Prelude.{
  ℕ, ◌+◌, ◌-◌, Bool, true, false, not, ◌&&◌, Option, none, some, List, [], ◌∷◌, ◌++◌, Text, codes,
  text_eq, is_empty, length, take, drop, starts_with, find_sub, trim_left, is_blank, to_string,
  tokens, ◌==◌, if◌then◌else◌,
}
use sip_event_processor.Prelude.Map.{Map, find, put}
use sip_event_processor.Subscription.Mwi.Summary.{lines, strip_cr}

pub record Request : Type 0 where
  pub method : Text
  pub path : Text
  pub query_string : Text
  pub query_params : Map Text
  pub headers : Map Text
  pub body : Text

abbrev pub empty_request : Request
empty_request = record {
  method = [];
  path = [];
  query_string = [];
  query_params = [];
  headers = [];
  body = [];
}

pub record Response : Type 0 where
  pub status_code : ℕ
  pub content_type : Text
  pub body : Text
  pub headers : Map Text

-- The default member initialisers.
abbrev pub default_response : Response
default_response = record {
  status_code = 200;
  content_type = codes "application/json";
  body = [];
  headers = [];
}

pub data Handled : Type 0 where
  responds : Response → Handled
  throws : Text → Handled

abbrev pub Handler : Type 0
Handler = Request → Handled

pub record HttpServer : Type 0 where
  pub routes : Map Handler
  pub requests_total : ℕ
  pub requests_ok : ℕ
  pub requests_error : ℕ

-- method + ":" + path
abbrev pub route_key : Text → Text → Text
route_key method path = method ++ b':' ∷ path

unfoldable pub route : Text → Text → Handler → HttpServer → HttpServer
route method path handler s = record s { routes = put (route_key method path) handler s.routes }

-- The two parts of a text around the first place of a byte.
unfoldable pub split_first : ℕ → Text → Option (Text × Text)
split_first sep s = elim (find_sub (sep ∷ []) s) [
  | none ↦ none
  | some i ↦ some (take i s, drop (i + 1) s)
]

unfoldable pub add_pair : Text → Map Text → Map Text
add_pair pair params = elim (split_first b'=' pair) [
  | none ↦ put pair [] params
  | some (k, v) ↦ put k v params
]

unfoldable pub add_pairs : List Text → Map Text → Map Text
add_pairs [] params = params
add_pairs (p ∷ ps) params = add_pairs ps (add_pair p params)

unfoldable pub parse_query_string : Text → Map Text
parse_query_string qs = add_pairs (tokens b'&' qs) []

-- The request line, without its carriage return: method, path and query stand between its first
-- two spaces.
unfoldable pub parse_request_line : Text → Request
parse_request_line line = elim (split_first b' ' line) [
  | none ↦ empty_request
  | some (method, behind) ↦ elim (split_first b' ' behind) [
    | none ↦ empty_request
    | some (full_path, _) ↦ elim (split_first b'?' full_path) [
      | none ↦ record empty_request { method = method; path = full_path }
      | some (path, query) ↦ record empty_request {
        method = method;
        path = path;
        query_string = query;
        query_params = parse_query_string query;
      }
    ]
  ]
]

-- The headers up to the first empty line.
unfoldable pub parse_headers : List Text → Map Text → Map Text
parse_headers [] headers = headers
parse_headers (l ∷ ls) headers =
    let line = strip_cr l in
    elim (is_empty line) [
      | true ↦ headers
      | false ↦ elim (split_first b':' line) [
        | none ↦ parse_headers ls headers
        | some (key, val) ↦ parse_headers ls (put key (trim_left is_blank val) headers)
      ]
    ]

unfoldable pub parse_request : Text → Request
parse_request raw = elim (lines raw) [
  | [] ↦ empty_request
  | line ∷ ls ↦ record (parse_request_line (strip_cr line)) { headers = parse_headers ls [] }
]

-- The loop over the routes, in the order in which the table iterates.
unfoldable pub prefix_match : Text → Text → Map Handler → Option Handler
prefix_match method path [] = none
prefix_match method path ((key, h) ∷ rs) =
    let rest = prefix_match method path rs in
    elim (split_first b':' key) [
      | none ↦ rest
      | some (rm, rp) ↦ if text_eq rm method && starts_with rp path then some h else rest
    ]

unfoldable pub find_handler : Request → Map Handler → Option Handler
find_handler req routes = elim (find (route_key req.method req.path) routes) [
  | some h ↦ some h
  | none ↦ prefix_match req.method req.path routes
]

unfoldable pub status_text : ℕ → Text
status_text code =
    if code == 200
    then codes "OK"
    else if code == 404
    then codes "Not Found"
    else if code == 500
    then codes "Internal Server Error"
    else if code == 503
    then codes "Service Unavailable"
    else codes "Unknown"

unfoldable pub header_lines : Map Text → Text
header_lines [] = []
header_lines ((k, v) ∷ hs) = k ++ codes ": " ++ v ++ codes "\r\n" ++ header_lines hs

unfoldable pub serialize_response : Response → Text
serialize_response resp =
    codes "HTTP/1.1 "
    ++ to_string resp.status_code
    ++ codes " "
    ++ status_text resp.status_code
    ++ codes "\r\n"
    ++ codes "Content-Type: "
    ++ resp.content_type
    ++ codes "\r\n"
    ++ codes "Content-Length: "
    ++ to_string (length resp.body)
    ++ codes "\r\n"
    ++ codes "Connection: close\r\n"
    ++ header_lines resp.headers
    ++ codes "\r\n"
    ++ resp.body

-- What is answered, and the counters, for the bytes that `recv` gave; nothing where it gave none.
unfoldable pub respond_to : Request → HttpServer → HttpServer × Response
respond_to req s = elim (find_handler req s.routes) [
  | none ↦ (
    s,
    record default_response {
      status_code = 404;
      body = codes "{\"error\":\"not_found\",\"path\":\"" ++ req.path ++ codes "\"}";
    },
  )
  | some handler ↦ elim (handler req) [
    | responds resp ↦ (record s { requests_ok = s.requests_ok + 1 }, resp)
    | throws what ↦ (
      record s { requests_error = s.requests_error + 1 },
      record default_response {
        status_code = 500;
        body = codes "{\"error\":\"" ++ what ++ codes "\"}";
      },
    )
  ]
]

unfoldable pub handle_client : Text → HttpServer → HttpServer × Option Text
handle_client [] s = (s, none)
handle_client (c ∷ raw) s =
    let (s', resp) = respond_to (parse_request (c ∷ raw)) s in (s', some (serialize_response resp))

-- What the server's thread does with an accepted connection.
unfoldable pub serve_client : Text → HttpServer → HttpServer × Option Text
serve_client raw s = handle_client raw (record s { requests_total = s.requests_total + 1 })
