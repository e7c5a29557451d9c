-- ===== src/Examples/Front.antt =====
-- The callback of the SIP stack, the configuration and the HTTP server.
use sip_event_processor.Prelude.{
  ℕ, ◌+◌, ◌≡◌, ◌≤◌, refl, true, Option, none, some, [], ◌∷◌, Text, codes, get_elem?, text_eq,
  find_sub, starts_with, tokens, trim_left, trim_right, arith,
}
use sip_event_processor.Prelude.Map.{Map, find, put, Distinct}
use sip_event_processor.Subscription.Mwi.Summary.{lines}
use sip_event_processor.Config.Ini.{
  substitute, parse_ini, parse_lines, parse_line, split_line, parse_servers, servers_from,
  server_of, split_last_colon,
}
use sip_event_processor.Config.Ini.Servers.{WellFormed, parse_servers-positions}
use sip_event_processor.Config.Ini.Substitution.{dollars, substitute-ends}
use sip_event_processor.Config.Load.{load_from_file, load_defaults, known_keys}
use sip_event_processor.Config.Load.Defaults.{Absent, load_from_file-load_defaults}
use sip_event_processor.Sip.Event.{i_subscribe, create_from_sofia, next_id}
use sip_event_processor.Sip.Callback.{SipCallbackHandler, nua_callback}
use sip_event_processor.Sip.Callback.Answers.{Outcome, nua_callback-subscribe}
use sip_event_processor.Dispatch.Dispatcher.{start, new_dispatcher}
use sip_event_processor.Http.Server.{parse_query_string}
use sip_event_processor.Http.Server.Query.{render, find-parse_query_string}
use sip_event_processor.Http.Health.{Dependencies}
use sip_event_processor.Examples.Data.{config, world}

abbrev hash : Text → ℕ
hash [] = 0
hash (c ∷ s) = c + hash s

abbrev handler : SipCallbackHandler
handler = record {
  dispatcher = some (start (new_dispatcher config world)).0;
  event_counter = 0;
  sofia_calls = [];
}

abbrev print_pointer : ℕ → Text
print_pointer n = n ∷ []

nua_callback-subscribe_example :
    Outcome hash 7 9
      (create_from_sofia 7 (next_id 0) print_pointer i_subscribe 100 none (some 9) none)
      none
      handler
      (nua_callback hash 7 print_pointer i_subscribe 100 none (some 9) none handler)
nua_callback-subscribe_example = nua_callback-subscribe hash 7 print_pointer 100 none 9 none handler

-- Two servers, the second without a port.
abbrev csv : Text
csv = b'a' ∷ b':' ∷ b'7' ∷ b',' ∷ b'b' ∷ []

second_server :
    get_elem? (parse_servers csv) 1
    ≡ some (record { host = b'b' ∷ []; port = 9000; priority = 1; weight = 1 })
unfolding parse_servers servers_from server_of split_last_colon tokens trim_left trim_right
second_server = refl

parse_servers-positions_example :
    WellFormed 1 (record { host = b'b' ∷ []; port = 9000; priority = 1; weight = 1 })
parse_servers-positions_example = parse_servers-positions csv 1 _ second_server

abbrev environment : Text → Option Text
environment name = some (b'x' ∷ [])

abbrev quoted : Text
quoted = b'$' ∷ b'{' ∷ b'A' ∷ b'}' ∷ []

no_dollars : (name : Text) → dollars (b'x' ∷ []) ≡ 0
unfolding dollars
no_dollars name = refl

one_dollar : dollars quoted + 1 ≤ 2
unfolding dollars
one_dollar = omega arith

substitute-ends_example : (value : Text) × (substitute 2 environment [] quoted ≡ some value)
substitute-ends_example = substitute-ends 2 environment [] quoted no_dollars one_dollar

-- A file that sets a key of its own.
abbrev own_key : Text
own_key = b'x' ∷ b'=' ∷ b'1' ∷ []

abbrev own_values : Map Text
own_values = (b'x' ∷ [], b'1' ∷ []) ∷ []

none_set : Absent own_values known_keys
unfolding find text_eq codes
none_set = (
  refl,
  (
    refl,
    (
      refl,
      (
        refl,
        (
          refl,
          (
            refl,
            (
              refl,
              (
                refl,
                (
                  refl,
                  (
                    refl,
                    (
                      refl,
                      (
                        refl,
                        (
                          refl,
                          (
                            refl,
                            (
                              refl,
                              (
                                refl,
                                (
                                  refl,
                                  (
                                    refl,
                                    (
                                      refl,
                                      (
                                        refl,
                                        (
                                          refl,
                                          (
                                            refl,
                                            (
                                              refl,
                                              (
                                                refl,
                                                (
                                                  refl,
                                                  (
                                                    refl,
                                                    (
                                                      refl,
                                                      (
                                                        refl,
                                                        (
                                                          refl,
                                                          (
                                                            refl,
                                                            (
                                                            refl,
                                                            (
                                                            refl,
                                                            (
                                                            refl,
                                                            (
                                                            refl,
                                                            (
                                                            refl,
                                                            (
                                                            refl,
                                                            (
                                                            refl,
                                                            (
                                                            refl,
                                                            (
                                                            refl,
                                                            (
                                                            refl,
                                                            (
                                                            refl,
                                                            (
                                                            refl,
                                                            (
                                                            refl,
                                                            (
                                                            refl,
                                                            (
                                                            refl,
                                                            (
                                                            refl,
                                                            (
                                                            refl,
                                                            (
                                                            refl,
                                                            (
                                                            refl,
                                                            (refl, (refl, (refl, (refl, tt)))),
                                                            ),
                                                            ),
                                                            ),
                                                            ),
                                                            ),
                                                            ),
                                                            ),
                                                            ),
                                                            ),
                                                            ),
                                                            ),
                                                            ),
                                                            ),
                                                            ),
                                                            ),
                                                            ),
                                                            ),
                                                            ),
                                                            ),
                                                          ),
                                                        ),
                                                      ),
                                                    ),
                                                  ),
                                                ),
                                              ),
                                            ),
                                          ),
                                        ),
                                      ),
                                    ),
                                  ),
                                ),
                              ),
                            ),
                          ),
                        ),
                      ),
                    ),
                  ),
                ),
              ),
            ),
          ),
        ),
      ),
    ),
  ),
)

own_key-read : parse_ini 3 environment (some own_key) ≡ some own_values
unfolding parse_ini parse_lines parse_line lines split_line substitute trim_left trim_right find_sub
    starts_with put
own_key-read = refl

load_from_file-load_defaults_example :
    load_from_file 3 4 environment (some own_key) ≡ some (load_defaults 4)
load_from_file-load_defaults_example =
    load_from_file-load_defaults 3 4 environment (some own_key) own_values own_key-read none_set

abbrev deps : Dependencies
deps = record {
  sip_stack = some true;
  has_dispatcher = true;
  mongo_enabled = true;
  mongo = none;
  presence_client = none;
  failover_mgr = some 1;
}

abbrev params : Map Text
params = (b'a' ∷ [], b'1' ∷ []) ∷ (b'b' ∷ [], []) ∷ []

params-Distinct : Distinct params
unfolding find text_eq
params-Distinct = (refl, (refl, tt))

find-parse_query_string_example :
    find (b'b' ∷ []) (parse_query_string (render params)) ≡ find (b'b' ∷ []) params
find-parse_query_string_example = find-parse_query_string params (b'b' ∷ []) params-Distinct refl
