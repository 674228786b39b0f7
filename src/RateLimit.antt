-- ===== src/RateLimit.antt =====
-- src/ratelimit.rs: the rate limiter. The arithmetic of `f64` and the hash of an address are
-- parameters. A shard is locked for one call; the calls of the global cap are taken one after
-- another. Times are in nanoseconds from the start, and a `duration_since` that would be negative
-- is 0, as subtraction on ℕ is.
pub mod Table
pub mod Window
use ironbind.Prelude.{
  ℕ, zero, suc, ◌+◌, ◌-◌, ◌*◌, ◌/◌, ◌%◌, ◌^◌, max, Bool, true, false, not, ◌&&◌, Option, none, some,
  List, [], ◌∷◌, ltb, leb, ◌==◌, if◌then◌else◌, length, get_elem?,
}
use ironbind.Prelude.Text.{Bytes}
use ironbind.Prelude.Assoc.{Assoc, bytes_key, lookup, insert, retain, is_some}

-- `f64`
pub record Float (F : Type 0) : Type 0 where
  pub of_nat : ℕ → F
  pub of_nanos : ℕ → F
  pub add : F → F → F
  pub sub : F → F → F
  pub mul : F → F → F
  pub least : F → F → F
  pub is_le : F → F → Bool
  pub is_less : F → F → Bool

abbrev pub shard_count : ℕ
shard_count = 64

pub record Bucket (F : Type 0) : Type 0 where
  pub tokens : F
  pub last_refill : ℕ

pub record Shard (F : Type 0) : Type 0 where
  pub buckets : Assoc Bytes (Bucket F)
  pub last_prune : ℕ

pub record RateLimiter (F : Type 0) : Type 0 where
  pub capacity : F
  pub rate : F
  pub shards : List (Shard F)
  pub max_sources_per_shard : ℕ
  pub global_limit : ℕ
  pub global_window : ℕ
  pub global_count : ℕ

unfoldable pub fresh_shards : {F : Type 0} → ℕ → ℕ → List (Shard F)
fresh_shards now zero = []
fresh_shards now (suc n) = record { buckets = []; last_prune = now } ∷ fresh_shards now n

-- `shards[i]`, replaced by what the check leaves of it.
unfoldable pub at_shard :
    {F : Type 0} → ℕ → (Shard F → Shard F × Bool) → List (Shard F) → List (Shard F) × Bool
at_shard i f [] = ([], false)
at_shard zero f (s ∷ ss) = let (s', allowed) = f s in (s' ∷ ss, allowed)
at_shard (suc i) f (s ∷ ss) = let (ss', allowed) = at_shard i f ss in (s ∷ ss', allowed)

-- The count is a `u64`.
unfoldable pub check_global : {F : Type 0} → ℕ → RateLimiter F → RateLimiter F × Bool
check_global now l =
    let window = now / 10 ^ 9 in
    let count = if l.global_window == window then l.global_count else 0 in
    if l.global_limit == 0 then (l, true) else (
      record l { global_window = window; global_count = (count + 1) % 2 ^ 64 },
      ltb count l.global_limit,
    )

module _ {F : Type 0} (float : Float F) where
  unfoldable pub new : ℕ → ℕ → ℕ → ℕ → RateLimiter F
  unfolding fresh_shards
  new now queries_per_second global_queries_per_second max_tracked_sources = record {
    capacity = float.of_nat queries_per_second;
    rate = float.of_nat queries_per_second;
    shards = fresh_shards now shard_count;
    max_sources_per_shard = max (max_tracked_sources / shard_count) 1;
    global_limit = global_queries_per_second;
    global_window = 0;
    global_count = 0;
  }

  abbrev or_full : F → ℕ → Option (Bucket F) → Bucket F
  or_full capacity now none = record { tokens = capacity; last_refill = now }
  or_full capacity now (some b) = b

  -- From the entry of the source on: refill, and take a token if there is one.
  unfoldable pub take_token : F → F → ℕ → Bytes → Shard F → Shard F × Bool
  take_token capacity rate now ip s =
      let bucket = or_full capacity now (lookup ip s.buckets) in
      let elapsed = float.of_nanos (now - bucket.last_refill) in
      let tokens = float.least (float.add bucket.tokens (float.mul elapsed rate)) capacity in
      let allowed = float.is_le (float.of_nat 1) tokens in
      let left = if allowed then float.sub tokens (float.of_nat 1) else tokens in
      (
        record s { buckets = insert ip (record { tokens = left; last_refill = now }) s.buckets },
        allowed,
      )

  unfoldable pub prune : F → F → ℕ → Shard F → Shard F
  prune capacity rate now s = record {
    buckets =
        retain
          (λ b.
            float.is_less
              (float.add b.tokens (float.mul (float.of_nanos (now - b.last_refill)) rate)) capacity)
          s.buckets;
    last_prune = now;
  }

  -- `check_source` behind the lock of the shard.
  unfoldable pub check_shard : F → F → ℕ → ℕ → Bytes → Shard F → Shard F × Bool
  unfolding take_token prune
  check_shard capacity rate most now ip s =
      let pruned = prune capacity rate now s in
      if not (is_some (lookup ip s.buckets)) && leb most (length s.buckets)
      then (if ltb ((now - s.last_prune) / 10 ^ 9) 1
          then (s, true)
          else (if leb most (length pruned.buckets)
              then (pruned, true)
              else take_token capacity rate now ip pruned))
      else take_token capacity rate now ip s

  unfoldable pub check_source : (Bytes → ℕ) → ℕ → Bytes → RateLimiter F → RateLimiter F × Bool
  unfolding check_shard at_shard
  check_source hash now ip l =
      let (shards, allowed) =
        at_shard (hash ip % shard_count)
          (check_shard l.capacity l.rate l.max_sources_per_shard now ip) l.shards in
      if float.is_le l.capacity (float.of_nat 0)
      then (l, true)
      else (record l { shards = shards }, allowed)

  unfoldable pub check : (Bytes → ℕ) → ℕ → Bytes → RateLimiter F → RateLimiter F × Bool
  unfolding check_source check_global
  check hash now ip l =
      let (l', allowed) = check_source hash now ip l in
      let counted = check_global now l' in if allowed then counted else (l', false)
