-- ===== src/Server/Startup.antt =====
-- src/main.rs: the state that the server starts with, from its configuration.
use ironbind.Prelude.{
  ℕ, not, ◌&&◌, Option, none, some, List, [], ◌∷◌, Result, ◌==◌, if◌then◌else◌, filter, is_empty,
  last?,
}
use mathlib.Core.Option
use ironbind.Prelude.Text.{Bytes, codes, bytes_eq}
use ironbind.Prelude.Chars.{Chars, split, as_bytes}
use ironbind.Proto.RType
use ironbind.Proto.Packet.{class_in}
use ironbind.Proto.Reader.{IoError}
use ironbind.Cache.{empty}
use ironbind.Config.Load.{
  TsigSecretSource, TsigKeyConfig, RateLimitConfig, ServerConfig, LoadError, default_config, load,
}
use ironbind.Metrics
use ironbind.RateLimit
use ironbind.RateLimit.{Float, RateLimiter}
use ironbind.Resolver.Conf.{from_resolv_conf}
use ironbind.Tsig
use ironbind.Tsig.{TsigKeyring, insert_key}
use ironbind.Zone
use ironbind.Zone.{Zone, add}
use ironbind.ZoneManager
use ironbind.ZoneManager.{ZoneManager, load_zone, get_zones}
use ironbind.Server.Pools.{recursion_pool_of}
use ironbind.Server.State.{Settings}
use ironbind.Server.Serve.{Serving}

-- The part of a file name before its last dot, which is not the first character.
abbrev before_last_dot : Chars → Option Chars
before_last_dot [] = none
before_last_dot (c ∷ cs) = elim (before_last_dot cs) [
  | some s ↦ some (c ∷ s)
  | none ↦ if c == 46 then some [] else none
]

abbrev stem_of : Chars → Option Chars → Chars
stem_of name none = name
stem_of name (some []) = name
stem_of name (some (c ∷ cs)) = c ∷ cs

-- `Path::file_stem`
unfoldable file_stem : Chars → Option Chars
file_stem path =
    elim (last? (filter (λ c. not (is_empty c) && not (bytes_eq c (codes "."))) (split 47 path))) [
      | none ↦ none
      | some name ↦
          if bytes_eq name (codes "..") then none else some (stem_of name (before_last_dot name))
    ]

-- `trim_end_matches(".zone")`
abbrev trim_zone : Chars → Chars
trim_zone [] = []
trim_zone (c ∷ cs) =
    let rest = trim_zone cs in if bytes_eq (c ∷ rest) (codes ".zone") then [] else c ∷ rest

unfoldable pub origin_of : Chars → Bytes
unfolding file_stem
origin_of path = elim (file_stem path) [ none ↦ codes "." | some stem ↦ as_bytes (trim_zone stem) ]

unfoldable pub load_all :
    (Bytes → Bytes → Result Zone IoError) → List Chars → ZoneManager → ZoneManager
unfolding origin_of load_zone
load_all read [] m = m
load_all read (path ∷ paths) m =
    let origin = origin_of path in
    let file = as_bytes path in load_all read paths (load_zone origin file (read origin file) m).0

-- The zone that is served where no other is.
unfoldable pub example_zone : Zone
unfolding add Zone.new
example_zone =
    add
      (record {
        name = codes "example.local";
        rtype = RType.txt;
        class = class_in;
        ttl = 300;
        rdata = 18 ∷ codes "ironbind test zone";
      })
      (add
        (record {
          name = codes "example.local";
          rtype = RType.a;
          class = class_in;
          ttl = 300;
          rdata = 127 ∷ 0 ∷ 0 ∷ 1 ∷ [];
        })
        (Zone.new (codes "example.local")))

abbrev zones_or_example : List Zone → List Zone
zones_or_example [] = example_zone ∷ []
zones_or_example (z ∷ zs) = z ∷ zs

-- The keys whose secrets resolve.
unfoldable keyring_of :
    (TsigSecretSource → Option Bytes) → List TsigKeyConfig → TsigKeyring → TsigKeyring
unfolding insert_key
keyring_of resolve [] ring = ring
keyring_of resolve (k ∷ ks) ring = elim (resolve k.secret_source) [
  | none ↦ keyring_of resolve ks ring
  | some secret ↦ keyring_of resolve ks (
      insert_key
        (record { name = as_bytes k.name; algorithm = as_bytes k.algorithm; secret = secret }) ring)
]

-- The configuration of the command line: a file's, or the defaults on port 5353. An error ends the
-- program.
unfoldable chosen_config : Option (Result Chars IoError) → Result ServerConfig LoadError
unfolding load default_config
chosen_config (some file) = load file
chosen_config none = Result.ok (record default_config { port = 5353 })

abbrev pub limiter_of : {F : Type 0} → Float F → ℕ → RateLimitConfig → RateLimiter F
limiter_of float instant rl =
    RateLimit.new float instant (if rl.per_ip then rl.queries_per_second else 0)
      rl.global_queries_per_second rl.max_tracked_sources

module _ {F W : Type 0} (float : Float F) where
  -- `read` loads a zone, `resolve` gets the secret of a key, `conf` is the text of /etc/resolv.conf.
  unfoldable pub main_state :
      (Bytes → Bytes → Result Zone IoError)
      → (TsigSecretSource → Option Bytes)
      → Option Chars
      → ℕ
      → W
      → ServerConfig
      → Serving F W
  unfolding load_all keyring_of from_resolv_conf recursion_pool_of
  main_state read resolve conf instant world cfg =
      let manager = load_all read cfg.zone_files ZoneManager.new in
      let settings : Settings = record {
        tsig_require_all = cfg.tsig_require_all;
        dnssec_validate = cfg.dnssec_validate;
        dnssec_strict = cfg.dnssec_strict;
        neg_cache_ttl = cfg.neg_cache_ttl;
        allow_recursion = cfg.allow_recursion;
        forwarders = (from_resolv_conf conf).forwarders;
        use_forwarders = cfg.use_forwarders;
      } in
      record {
        core = record {
          zones = zones_or_example (get_zones manager);
          cache = empty;
          settings = settings;
          tsig_keys = keyring_of resolve cfg.tsig_keys Tsig.new;
          metrics = Metrics.new;
          world = world;
        };
        rate_limiter = Option.map (limiter_of float instant) cfg.rate_limit;
        zone_manager = manager;
        recursion_pool = recursion_pool_of cfg.worker_threads;
      }
