-- ===== src/RateLimit/Table.antt =====
-- src/ratelimit.rs: the size of the tables of sources.
use ironbind.Prelude.{
  ℕ, zero, suc, ◌+◌, ◌-◌, ◌/◌, ◌%◌, ◌^◌, ◌≤◌, ◌≡◌, refl, Bool, true, false, not, ◌&&◌, none, List,
  [], ◌∷◌, arith, ltb, leb, ◌==◌, if◌then◌else◌, length, All,
}
use ironbind.Prelude.Text.{Bytes}
use ironbind.Prelude.Assoc.{Assoc, bytes_key, lookup, insert, retain, is_some}
use ironbind.RateLimit.{
  Float, Shard, RateLimiter, take_token, prune, check_shard, at_shard, check_source, check_global,
  check, shard_count,
}

module _ {V : Type 0} where
  length-insert :
      (i : Bytes) (v : V) (m : Assoc Bytes V)
      → length (insert i v m) ≡ (if is_some (lookup i m) then length m else length m + 1)
  unfolding insert lookup
  length-insert i v [] = refl
  length-insert i v ((j, w) ∷ m) = ground (arith, length-insert i v m)

  length-retain-le : (p : V → Bool) (m : Assoc Bytes V) → length (retain p m) ≤ length m
  unfolding retain
  length-retain-le p [] = omega arith
  length-retain-le p ((j, w) ∷ m) = ground (arith, length-retain-le p m)

  lookup-retain-none :
      (i : Bytes) (p : V → Bool) (m : Assoc Bytes V)
      → lookup i m ≡ none
      → lookup i (retain p m) ≡ none
  unfolding retain lookup
  lookup-retain-none i p [] h = refl
  lookup-retain-none i p ((j, w) ∷ m) h = ground (arith, lookup-retain-none i p m)

-- A table holds at most `most` sources.
abbrev pub IsSmall : {F : Type 0} → ℕ → Shard F → Type 0
IsSmall most s = length s.buckets ≤ most

-- No table holds more sources than the limiter allows for a shard.
unfoldable pub IsBounded : {F : Type 0} → RateLimiter F → Type 0
IsBounded l = All (IsSmall l.max_sources_per_shard) l.shards

module _ {F : Type 0} (float : Float F) where
  take_token-IsSmall :
      (capacity rate : F) (most now : ℕ) (ip : Bytes) (s : Shard F)
      → IsSmall most s
      → (not (is_some (lookup ip s.buckets)) && leb most (length s.buckets)) ≡ false
      → IsSmall most (take_token float capacity rate now ip s).0
  unfolding take_token
  take_token-IsSmall capacity rate most now ip s h k = rw length-insert (ground arith)

  prune-IsSmall :
      (capacity rate : F) (most now : ℕ) (s : Shard F)
      → IsSmall most s
      → IsSmall most (prune float capacity rate now s)
  unfolding prune
  prune-IsSmall capacity rate most now s h = omega (arith, length-retain-le _ s.buckets)

  if_IsSmall :
      (most : ℕ) (b : Bool) (x y : Shard F × Bool)
      → (b ≡ true → IsSmall most x.0)
      → (b ≡ false → IsSmall most y.0)
      → IsSmall most (if b then x else y).0
  if_IsSmall most true x y h k = h refl
  if_IsSmall most false x y h k = k refl

  check_shard-IsSmall :
      (capacity rate : F) (most now : ℕ) (ip : Bytes) (s : Shard F)
      → IsSmall most s
      → IsSmall most (check_shard float capacity rate most now ip s).0
  unfolding check_shard
  check_shard-IsSmall capacity rate most now ip s h =
      let pruned = prune float capacity rate now s in
      let small = prune-IsSmall capacity rate most now s h in
      if_IsSmall most (not (is_some (lookup ip s.buckets)) && leb most (length s.buckets)) _ _
        (λ e.
          if_IsSmall most (ltb ((now - s.last_prune) / 10 ^ 9) 1) _ _ (λ a. h)
            (λ a.
              if_IsSmall most (leb most (length pruned.buckets)) _ _ (λ c. small)
                (λ c. take_token-IsSmall capacity rate most now ip pruned small (ground arith))))
        (take_token-IsSmall capacity rate most now ip s h)

  at_shard-IsSmall :
      (most i : ℕ) (f : Shard F → Shard F × Bool) (ss : List (Shard F))
      → ((s : Shard F) → IsSmall most s → IsSmall most (f s).0)
      → All (IsSmall most) ss
      → All (IsSmall most) (at_shard i f ss).0
  unfolding at_shard
  at_shard-IsSmall most i f [] k h = tt
  at_shard-IsSmall most zero f (s ∷ ss) k h = (k s h.0, h.1)
  at_shard-IsSmall most (suc i) f (s ∷ ss) k h = (h.0, at_shard-IsSmall most i f ss k h.1)

  if_IsBounded :
      (b : Bool) (x y : RateLimiter F × Bool)
      → IsBounded x.0
      → IsBounded y.0
      → IsBounded (if b then x else y).0
  if_IsBounded true x y h k = h
  if_IsBounded false x y h k = k

  check_source-IsBounded :
      (hash : Bytes → ℕ) (now : ℕ) (ip : Bytes) (l : RateLimiter F)
      → IsBounded l
      → IsBounded (check_source float hash now ip l).0
  unfolding IsBounded check_source
  check_source-IsBounded hash now ip l h =
      let checked =
        at_shard (hash ip % shard_count)
          (check_shard float l.capacity l.rate l.max_sources_per_shard now ip) l.shards in
      if_IsBounded (float.is_le l.capacity (float.of_nat 0)) (l, true)
        (record l { shards = checked.0 }, checked.1) h
        (at_shard-IsSmall l.max_sources_per_shard (hash ip % shard_count)
          (check_shard float l.capacity l.rate l.max_sources_per_shard now ip) l.shards
          (check_shard-IsSmall l.capacity l.rate l.max_sources_per_shard now ip) h)

  check_global-IsBounded :
      (now : ℕ) (l : RateLimiter F) → IsBounded l → IsBounded (check_global now l).0
  unfolding IsBounded check_global
  check_global-IsBounded now l h = if_IsBounded (l.global_limit == 0) (l, true) _ h h

  -- Whatever the addresses, their hashes, the times and the arithmetic of the buckets: a check keeps
  -- every table of sources within the limit.
  pub check-IsBounded :
      (hash : Bytes → ℕ) (now : ℕ) (ip : Bytes) (l : RateLimiter F)
      → IsBounded l
      → IsBounded (check float hash now ip l).0
  unfolding check
  check-IsBounded hash now ip l h =
      let (l', allowed) = check_source float hash now ip l in
      let kept = check_source-IsBounded hash now ip l h in
      if_IsBounded allowed (check_global now l') (l', false) (check_global-IsBounded now l' kept)
        kept
