-- ===== src/Config/Ini.antt =====
-- Config::parse_ini and the getters of src/common/config.cpp. The file is its text, or `none`
-- where it cannot be opened; the environment is a function.
pub mod Substitution
pub mod Servers
use sip_event_processor.Prelude.{
  ℕ, zero, suc, ◌+◌, ◌-◌, ◌%◌, ◌^◌, Bool, true, false, ◌&&◌, ◌||◌, Option, none, some, List, [],
  ◌∷◌, ◌++◌, Text, codes, text_eq, is_empty, take, drop, find_sub, trim_left, trim_right, tokens,
  is_blank, is_space, ℤ, pos, negsuc, ltb, leb, ◌==◌, if◌then◌else◌,
}
use sip_event_processor.Prelude.Map.{Map, find, put}
use sip_event_processor.Subscription.Mwi.Summary.{lines, scan_int}
use sip_event_processor.Config.{PresenceServerEndpoint}

-- The loop that replaces ${NAME}: `done` is the value up to `pos`, `rest` what follows. What has
-- been put in is searched again. `none` where `fuel` rounds do not suffice.
unfoldable pub substitute : ℕ → (Text → Option Text) → Text → Text → Option Text
substitute zero getenv done rest = none
substitute (suc fuel) getenv done rest = elim (find_sub (b'$' ∷ b'{' ∷ []) rest) [
  | none ↦ some (done ++ rest)
  | some i ↦
      let t = drop i rest in
      elim (find_sub (b'}' ∷ []) t) [
        | none ↦ some (done ++ rest)
        | some j ↦
            let env_val : Text = elim (getenv (take (j - 2) (drop 2 t))) [
              | none ↦ []
              | some v ↦ v
            ] in
            substitute fuel getenv (done ++ take i rest) (env_val ++ drop (j + 1) t)
      ]
]

-- The section's name and the map, in the loop over the lines.
pub record IniState : Type 0 where
  pub section : Text
  pub values : Map Text

-- The two parts of a line around its first '='.
unfoldable pub split_line : Text → Option (Text × Text)
split_line line = elim (find_sub (b'=' ∷ []) line) [
  | none ↦ none
  | some eq ↦ some (take eq line, drop (eq + 1) line)
]

-- "section.key", or the key without a section
abbrev pub full_key : Text → Text → Text
full_key section key = if is_empty section then key else section ++ b'.' ∷ key

-- One line of the file; `none` where the substitution does not end.
unfoldable pub parse_line : ℕ → (Text → Option Text) → Text → IniState → Option IniState
parse_line fuel getenv raw s = elim (trim_right is_space (trim_left is_space raw)) [
  | [] ↦ some s
  | c ∷ cs ↦
      if c == b'#' || c == b';'
      then some s
      else if c == b'['
      then elim (find_sub (b']' ∷ []) (c ∷ cs)) [
        | none ↦ some s
        | some end ↦ some (record s { section = take (end - 1) cs })
      ]
      else elim (split_line (c ∷ cs)) [
        | none ↦ some s
        | some (k, v) ↦
            let key = trim_left is_blank (trim_right is_blank k) in
            let val = trim_right is_blank (trim_left is_blank v) in
            elim (substitute fuel getenv [] val) [
              | none ↦ none
              | some value ↦
                  some (record s { values = put (full_key s.section key) value s.values })
            ]
      ]
]

unfoldable pub parse_lines : ℕ → (Text → Option Text) → List Text → IniState → Option IniState
parse_lines fuel getenv [] s = some s
parse_lines fuel getenv (l ∷ ls) s = elim (parse_line fuel getenv l s) [
  | none ↦ none
  | some t ↦ parse_lines fuel getenv ls t
]

unfoldable pub parse_ini : ℕ → (Text → Option Text) → Option Text → Option (Map Text)
parse_ini fuel getenv none = some []
parse_ini fuel getenv (some file) =
    elim (parse_lines fuel getenv (lines file) (record { section = []; values = [] })) [
      | none ↦ none
      | some s ↦ some s.values
    ]

unfoldable pub get_or : Map Text → Text → Text → Text
get_or m key def = elim (find key m) [ none ↦ def | some v ↦ v ]

-- std::stoi; `none` where it throws.
unfoldable pub stoi : Text → Option ℤ
stoi s = elim (scan_int s) [
  | none ↦ none
  | some (n, _) ↦ elim n [
    | pos k ↦ if ltb k (2 ^ 31) then some (pos k) else none
    | negsuc k ↦ if ltb k (2 ^ 31) then some (negsuc k) else none
  ]
]

-- std::stoull, which takes a sign, and negates in 64 bits.
unfoldable pub stoull : Text → Option ℕ
stoull s = elim (scan_int s) [
  | none ↦ none
  | some (n, _) ↦ elim n [
    | pos k ↦ if ltb k (2 ^ 64) then some k else none
    | negsuc k ↦ if ltb (k + 1) (2 ^ 64) then some (2 ^ 64 - 1 - k) else none
  ]
]

unfoldable pub get_int : Map Text → Text → ℤ → ℤ
get_int m key def = elim (find key m) [
  | none ↦ def
  | some v ↦ elim (stoi v) [ none ↦ def | some n ↦ n ]
]

unfoldable pub get_size : Map Text → Text → ℕ → ℕ
get_size m key def = elim (find key m) [
  | none ↦ def
  | some v ↦ elim (stoull v) [ none ↦ def | some n ↦ n ]
]

unfoldable pub get_bool : Map Text → Text → Bool → Bool
get_bool m key def = elim (find key m) [
  | none ↦ def
  | some v ↦ text_eq v (codes "true") || text_eq v (codes "1") || text_eq v (codes "yes")
]

-- static_cast<uint16_t> of an int
unfoldable pub to_uint16 : ℤ → ℕ
to_uint16 (pos n) = n % 2 ^ 16
to_uint16 (negsuc n) = 2 ^ 16 - 1 - n % 2 ^ 16

-- The two parts of a token around its last colon.
unfoldable pub split_last_colon : Text → Option (Text × Text)
split_last_colon [] = none
split_last_colon (c ∷ s) = elim (split_last_colon s) [
  | some (host, port) ↦ some (c ∷ host, port)
  | none ↦ if c == b':' then some ([], s) else none
]

-- The endpoint of a token that is trimmed and not empty.
unfoldable pub server_of : ℕ → Text → PresenceServerEndpoint
server_of priority token = elim (split_last_colon token) [
  | none ↦ record { host = token; port = 9000; priority = priority; weight = 1 }
  | some (host, port) ↦ record {
    host = host;
    port = elim (stoi port) [ none ↦ 9000 | some n ↦ to_uint16 n ];
    priority = priority;
    weight = 1;
  }
]

unfoldable pub servers_from : ℕ → List Text → List PresenceServerEndpoint
servers_from priority [] = []
servers_from priority (t ∷ ts) =
    let token = trim_right is_blank (trim_left is_blank t) in
    elim (is_empty token) [
      | true ↦ servers_from priority ts
      | false ↦ server_of priority token ∷ servers_from (priority + 1) ts
    ]

unfoldable pub parse_servers : Text → List PresenceServerEndpoint
parse_servers csv = servers_from 0 (tokens b',' csv)
