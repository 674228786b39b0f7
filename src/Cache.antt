-- ===== src/Cache.antt =====
-- src/cache.rs: the DNS cache. Times are counted in nanoseconds, and each operation takes the
-- `Instant::now()` that it reads. The lock makes each operation one step.
pub mod Laws
pub mod Eviction
use ironbind.Prelude.{
  ℕ, ◌+◌, ◌*◌, ◌^◌, min, max, Bool, Option, none, some, List, [], ◌∷◌, Result, ok, err, ltb, ◌==◌,
  if◌then◌else◌, length,
}
use ironbind.Prelude.Text.{Bytes, to_ascii_lowercase}
use ironbind.Prelude.Assoc.{Assoc, pair_key, lookup, insert, retain}
use ironbind.Proto.RType.{RType, to_u16}
use ironbind.Proto.Packet.{Record}
use ironbind.Proto.Reader
use ironbind.Proto.Reader.{IoError}

pub data NegativeKind : Type 0 where
  nx_domain no_data : NegativeKind

pub data CacheValue : Type 0 where
  records : List Record → CacheValue
  negative : NegativeKind → CacheValue

pub record Entry : Type 0 where
  pub value : CacheValue
  pub expires : ℕ
  pub ttl : ℕ

abbrev pub CacheKey : Type 0
CacheKey = Bytes × ℕ

pub record Cache : Type 0 where
  pub inner : Assoc CacheKey Entry

unfoldable pub cache_key : Bytes → RType → CacheKey
unfolding to_u16
cache_key name qtype = (to_ascii_lowercase name, to_u16 qtype)

unfoldable pub empty : Cache
empty = record { inner = [] }

-- `Duration::from_secs`
abbrev pub from_secs : ℕ → ℕ
from_secs s = s * 10 ^ 9

abbrev pub live : ℕ → Option Entry → Option CacheValue
live now none = none
live now (some e) = if ltb now e.expires then some e.value else none

unfoldable pub get : ℕ → Bytes → RType → Cache → Option CacheValue
get now name qtype c = live now (lookup (cache_key name qtype) c.inner)

-- `u32::clamp(1, 86400)`
abbrev pub clamp_positive : ℕ → ℕ
clamp_positive ttl = if ltb ttl 1 then 1 else if ltb 86400 ttl then 86400 else ttl

unfoldable pub insert_positive : ℕ → Bytes → RType → List Record → ℕ → Cache → Cache
insert_positive now name qtype rs ttl c = record {
  inner =
      insert (cache_key name qtype)
        (record {
          value = records rs;
          expires = now + from_secs (clamp_positive ttl);
          ttl = clamp_positive ttl;
        })
        c.inner;
}

-- `min(10800).max(1)`
abbrev pub clamp_negative : ℕ → ℕ
clamp_negative ttl = max (min ttl 10800) 1

unfoldable pub insert_negative : ℕ → Bytes → RType → NegativeKind → ℕ → Cache → Cache
insert_negative now name qtype kind soa_ttl c = record {
  inner =
      insert (cache_key name qtype)
        (record {
          value = negative kind;
          expires = now + from_secs (clamp_negative soa_ttl);
          ttl = clamp_negative soa_ttl;
        })
        c.inner;
}

unfoldable pub evict_expired : ℕ → Cache → Cache
evict_expired now c = record { inner = retain (λ e. ltb now e.expires) c.inner }

unfoldable pub size : Cache → ℕ
size c = length c.inner

-- `unwrap_or`
abbrev pub unwrap_or {ℓ κ} : {A : Type ℓ} {E : Type κ} → Result A E → A → A
unwrap_or (ok x) d = x
unwrap_or (err e) d = d

-- What `soa_minimum_ttl` reads once both names are there. A number that cannot be read moves the
-- cursor as far as it was read.
minimum_at : Bytes → ℕ → ℕ
minimum_at buf pos =
    let p1 = (Reader.u32 buf pos).1 in
    let p2 = (Reader.u32 buf p1).1 in
    let p3 = (Reader.u32 buf p2).1 in
    let p4 = (Reader.u32 buf p3).1 in unwrap_or (Reader.u32 buf p4).0 300

abbrev after_name : (ℕ → ℕ) → Result Bytes IoError × ℕ → ℕ
after_name f (ok n, pos) = f pos
after_name f (err e, pos) = 300

unfoldable pub soa_minimum_ttl : Bytes → ℕ
unfolding minimum_at
soa_minimum_ttl rdata =
    after_name (λ pos. after_name (minimum_at rdata) (Reader.name rdata pos)) (Reader.name rdata 0)
