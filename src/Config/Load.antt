-- ===== src/Config/Load.antt =====
-- src/config.rs: `ServerConfig`. A field that the file does not set keeps its default.
use ironbind.Prelude.{
  ℕ, zero, suc, ◌+◌, ◌/◌, ◌%◌, Bool, true, false, not, ◌&&◌, Option, none, some, List, [], ◌∷◌,
  ◌++◌, Result, ok, err, any, ltb, ◌==◌, if◌then◌else◌,
}
use ironbind.Prelude.Text.{codes}
use ironbind.Prelude.Chars.{Chars}
use ironbind.Proto.Reader.{IoError}
use ironbind.Config.Int64.{ℤ, pos, cast, max_pos}
use ironbind.Config.Network.{Network, parse_network}
use ironbind.Config.Toml.{
  Toml, value, nothing, panic, parse_str, get_value, get_str, get_int, get_bool, get_array,
}

pub data TsigSecretSource : Type 0 where
  inline keychain file : Chars → TsigSecretSource

pub record TsigKeyConfig : Type 0 where
  pub name : Chars
  pub algorithm : Chars
  pub secret_source : TsigSecretSource

pub record TlsListenerConfig : Type 0 where
  pub bind : Chars
  pub cert_path : Chars
  pub key_path : Chars

pub record RateLimitConfig : Type 0 where
  pub queries_per_second : ℕ
  pub per_ip : Bool
  pub global_queries_per_second : ℕ
  pub max_tracked_sources : ℕ

pub record ServerConfig : Type 0 where
  pub bind : Chars
  pub port : ℕ
  pub use_forwarders : Bool
  pub dnssec_validate : Bool
  pub dnssec_strict : Bool
  pub allow_recursion : List Network
  pub cache_max : ℕ
  pub neg_cache_ttl : ℕ
  pub zone_files : List Chars
  pub log_level : Chars
  pub log_queries : Bool
  pub tcp_timeout_ms : ℕ
  pub rate_limit : Option RateLimitConfig
  pub metrics_port : ℕ
  pub worker_threads : ℕ
  pub udp_receivers : ℕ
  pub dot : Option TlsListenerConfig
  pub doh : Option TlsListenerConfig
  pub tsig_keys : List TsigKeyConfig
  pub tsig_require_all : Bool

abbrev pub default_allow_recursion : List Chars
default_allow_recursion =
    codes "127.0.0.0/8"
    ∷ codes "10.0.0.0/8"
    ∷ codes "172.16.0.0/12"
    ∷ codes "192.168.0.0/16"
    ∷ codes "169.254.0.0/16"
    ∷ codes "100.64.0.0/10"
    ∷ codes "::1/128"
    ∷ codes "fc00::/7"
    ∷ codes "fe80::/10"
    ∷ []

-- `filter_map(Network::parse)`
unfoldable pub parse_all : List Chars → List Network
parse_all [] = []
parse_all (s ∷ ss) =
    let rest = parse_all ss in elim (parse_network s) [ none ↦ rest | some n ↦ n ∷ rest ]

unfoldable pub default_config : ServerConfig
unfolding parse_all
default_config = record {
  bind = codes "0.0.0.0";
  port = 53;
  use_forwarders = true;
  dnssec_validate = true;
  dnssec_strict = false;
  allow_recursion = parse_all default_allow_recursion;
  cache_max = 100000;
  neg_cache_ttl = 300;
  zone_files = [];
  log_level = codes "info";
  log_queries = false;
  tcp_timeout_ms = 5000;
  rate_limit = none;
  metrics_port = 0;
  worker_threads = 64;
  udp_receivers = 2;
  dot = none;
  doh = none;
  tsig_keys = [];
  tsig_require_all = false;
}

-- Reading fails, an entry of `allow_recursion` is no network, or the text makes the reader panic.
pub data LoadError : Type 0 where
  unreadable : IoError → LoadError
  invalid_network : Chars → LoadError
  panics : LoadError

-- The loop over the entries of `allow_recursion`, up to the first that is no network.
unfoldable pub parse_networks : List Chars → Result (List Network) LoadError
parse_networks [] = ok []
parse_networks (s ∷ ss) =
    let rest = parse_networks ss in
    elim (parse_network s) [
      | none ↦ err (invalid_network s)
      | some n ↦ elim rest [ ok ns ↦ ok (n ∷ ns) | err e ↦ err e ]
    ]

abbrev pub server_section : Option Chars
server_section = some (codes "server")

unfoldable pub allowed_networks : Toml → List Network → Result (List Network) LoadError
unfolding parse_networks get_array
allowed_networks t default = elim (get_value t server_section (codes "allow_recursion")) [
  | none ↦ ok default
  | some v ↦ parse_networks (get_array t server_section (codes "allow_recursion"))
]

abbrev or_keep {ℓ} : {A : Type ℓ} → A → Option A → A
or_keep a none = a
or_keep a (some b) = b

abbrev cast_or : ℕ → ℕ → Option ℤ → ℕ
cast_or w n none = n
cast_or w n (some v) = cast w v

abbrev listener : Option Chars → Option Chars → Option Chars → Option TlsListenerConfig
listener none cert key = none
listener (some b) none key = none
listener (some b) (some cert) none = none
listener (some b) (some cert) (some key) =
    some (record { bind = b; cert_path = cert; key_path = key })

-- The listener of a section that has all three of its strings.
unfoldable tls_listener : Toml → Chars → Option TlsListenerConfig
unfolding get_str
tls_listener t section =
    listener (get_str t (some section) (codes "bind")) (get_str t (some section) (codes "cert"))
      (get_str t (some section) (codes "key"))

abbrev tsig_section : Option Chars
tsig_section = some (codes "tsig")

abbrev as_source :
    (Chars → TsigSecretSource) → Option Chars → Option TsigSecretSource → Option TsigSecretSource
as_source f none other = other
as_source f (some s) other = some (f s)

-- The keychain before the file before the secret itself.
unfoldable pub secret_source : Toml → Option TsigSecretSource
unfolding get_str
secret_source t = as_source keychain (get_str t tsig_section (codes "secret_keychain")) (
    as_source file (get_str t tsig_section (codes "secret_file"))
      (as_source inline (get_str t tsig_section (codes "secret")) none))

abbrev key_configs : Option Chars → Option Chars → Option TsigSecretSource → List TsigKeyConfig
key_configs none a source = []
key_configs (some n) none source = []
key_configs (some n) (some a) none = []
key_configs (some n) (some a) (some source) =
    record { name = n; algorithm = a; secret_source = source } ∷ []

unfoldable tsig_keys_of : Toml → List TsigKeyConfig
unfolding secret_source
tsig_keys_of t =
    key_configs (get_str t tsig_section (codes "name")) (get_str t tsig_section (codes "algorithm"))
      (secret_source t)

abbrev ratelimit_section : Option Chars
ratelimit_section = some (codes "ratelimit")

abbrev limit_or_zero : Option ℤ → ℕ
limit_or_zero none = 0
limit_or_zero (some v) = cast 32 (max_pos 0 v)

abbrev limits : Toml → Option ℤ → Option ℤ → RateLimitConfig
limits t per_source global = record {
  queries_per_second = limit_or_zero per_source;
  per_ip = or_keep true (get_bool t ratelimit_section (codes "per_ip"));
  global_queries_per_second = limit_or_zero global;
  max_tracked_sources = cast 64 (
      max_pos 1 (or_keep (pos 100000) (get_int t ratelimit_section (codes "max_tracked_sources"))));
}

abbrev limits_if_any : Toml → Option ℤ → Option ℤ → Option RateLimitConfig
limits_if_any t none none = none
limits_if_any t none (some g) = some (limits t none (some g))
limits_if_any t (some v) global = some (limits t (some v) global)

unfoldable rate_limit_of : Toml → Option RateLimitConfig
unfolding get_int get_bool
rate_limit_of t =
    limits_if_any t (get_int t ratelimit_section (codes "queries_per_second"))
      (get_int t ratelimit_section (codes "global_queries_per_second"))

-- What the file's tables say, with the networks that recursion is allowed to.
unfoldable pub configure : Toml → List Network → ServerConfig
unfolding get_str get_int get_bool get_array tls_listener tsig_keys_of rate_limit_of default_config
configure t networks =
    let d = default_config in
    let server_str = get_str t server_section in
    let server_int = get_int t server_section in
    let server_bool = get_bool t server_section in
    record {
      bind = or_keep d.bind (server_str (codes "bind"));
      port = cast_or 16 d.port (server_int (codes "port"));
      use_forwarders = or_keep d.use_forwarders (server_bool (codes "use_forwarders"));
      dnssec_validate = or_keep d.dnssec_validate (server_bool (codes "dnssec_validate"));
      dnssec_strict = or_keep d.dnssec_strict (server_bool (codes "dnssec_strict"));
      allow_recursion = networks;
      cache_max = cast_or 64 d.cache_max (get_int t (some (codes "cache")) (codes "max_entries"));
      neg_cache_ttl =
          cast_or 32 d.neg_cache_ttl (get_int t (some (codes "cache")) (codes "neg_ttl"));
      zone_files = get_array t (some (codes "zones")) (codes "files");
      log_level = or_keep d.log_level (server_str (codes "log_level"));
      log_queries = or_keep d.log_queries (server_bool (codes "log_queries"));
      tcp_timeout_ms = cast_or 64 d.tcp_timeout_ms (server_int (codes "tcp_timeout_ms"));
      rate_limit = rate_limit_of t;
      metrics_port = cast_or 16 d.metrics_port (get_int t (some (codes "metrics")) (codes "port"));
      worker_threads = cast_or 64 d.worker_threads (server_int (codes "worker_threads"));
      udp_receivers = cast_or 64 d.udp_receivers (server_int (codes "udp_receivers"));
      dot = tls_listener t (codes "dot");
      doh = tls_listener t (codes "doh");
      tsig_keys = tsig_keys_of t;
      tsig_require_all =
          or_keep d.tsig_require_all (get_bool t tsig_section (codes "require_all_queries"));
    }

unfoldable pub load_toml : Toml → Result ServerConfig LoadError
unfolding allowed_networks configure
load_toml t = elim (allowed_networks t (parse_all default_allow_recursion)) [
  | err e ↦ err e
  | ok networks ↦ ok (configure t networks)
]

-- `ServerConfig::load`, from what the file holds.
unfoldable pub load : Result Chars IoError → Result ServerConfig LoadError
unfolding load_toml parse_str
load (err e) = err (unreadable e)
load (ok content) = elim (parse_str content) [
  | value t ↦ load_toml t
  | nothing ↦ err panics
  | panic ↦ err panics
]

abbrev decimal_digits : ℕ → ℕ → Chars
decimal_digits zero n = []
decimal_digits (suc more) n =
    let front = decimal_digits more (n / 10) in
    if ltb n 10 then (48 + n) ∷ [] else front ++ ((48 + n % 10) ∷ [])

abbrev starts_bracket : Chars → Bool
starts_bracket [] = false
starts_bracket (c ∷ cs) = c == 91

-- The port has at most five digits.
unfoldable bind_addr : ServerConfig → Chars
bind_addr c =
    let port = decimal_digits 5 c.port in
    if any (λ x. x == 58) c.bind && not (starts_bracket c.bind)
    then 91 ∷ c.bind ++ (93 ∷ 58 ∷ port)
    else c.bind ++ (58 ∷ port)
