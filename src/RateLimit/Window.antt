-- ===== src/RateLimit/Window.antt =====
-- src/ratelimit.rs: `check` over the calls of one window, and its global cap.
use ironbind.Prelude.{
  ℕ, ◌+◌, ◌-◌, ◌/◌, ◌^◌, ◌<◌, ◌≡◌, refl, ap, true, ◌∙◌, ◌&&◌, ◌≢◌, Bool-cases, inl, inr, min, List,
  [], ◌∷◌, arith, ltb, ◌==◌, if◌then◌else◌, length, All,
}
use ironbind.Prelude.Text.{Bytes}
use ironbind.RateLimit.{Float, RateLimiter, check_global, check_source, check}

module _ {F : Type 0} where
  -- The calls that the window `w` has counted so far.
  abbrev pub counted : ℕ → RateLimiter F → ℕ
  counted w l = if l.global_window == w then l.global_count else 0

  check_global_lem :
      (w t : ℕ) (l : RateLimiter F)
      → l.global_limit ≢ 0
      → t / 10 ^ 9 ≡ w
      → counted w l + 1 < 2 ^ 64
      → ((check_global t l).1 ≡ ltb (counted w l) l.global_limit)
        × ((check_global t l).0.global_limit ≡ l.global_limit)
        × (counted w (check_global t l).0 ≡ counted w l + 1)
  unfolding check_global
  check_global_lem w t l n e h = (ground arith, ground arith, ground arith)

  check_global-unlimited :
      (t : ℕ) (l : RateLimiter F)
      → l.global_limit ≡ 0
      → ((check_global t l).1 ≡ true) × ((check_global t l).0.global_limit ≡ 0)
  unfolding check_global
  check_global-unlimited t l n = (ground arith, ground arith)

-- One call: the time, and the source.
abbrev pub Call : Type 0
Call = ℕ × Bytes

module _ {F : Type 0} (float : Float F) (hash : Bytes → ℕ) where
  -- How many of these calls, one after the other, the limiter lets through.
  unfoldable pub passed : List Call → RateLimiter F → ℕ
  passed [] l = 0
  passed ((t, ip) ∷ cs) l =
      let rest = passed cs (check float hash t ip l).0 in
      if (check float hash t ip l).1 then rest + 1 else rest

  -- How many of them have a token left in the bucket of their source.
  unfoldable pub within_source : List Call → RateLimiter F → ℕ
  within_source [] l = 0
  within_source ((t, ip) ∷ cs) l =
      let rest = within_source cs (check float hash t ip l).0 in
      if (check_source float hash t ip l).1 then rest + 1 else rest

  -- The global cap as it stands.
  record SameCap (l l' : RateLimiter F) : Type 0 where
    limit : l'.global_limit ≡ l.global_limit
    window : l'.global_window ≡ l.global_window
    count : l'.global_count ≡ l.global_count

  check_source-SameCap :
      (t : ℕ) (ip : Bytes) (l : RateLimiter F) → SameCap l (check_source float hash t ip l).0
  unfolding check_source
  check_source-SameCap t ip l = elim (Bool-cases (float.is_le l.capacity (float.of_nat 0))) [
    | inl e ↦ rw (e, check_source) (record { limit = refl; window = refl; count = refl })
    | inr e ↦ rw (e, check_source) (record { limit = refl; window = refl; count = refl })
  ]

  counted-SameCap : (w : ℕ) (l l' : RateLimiter F) → SameCap l l' → counted w l' ≡ counted w l
  counted-SameCap w l l' h = rw (h.window, h.count) refl

  -- One call, as far as the cap is concerned.
  check_lem :
      (w t : ℕ) (ip : Bytes) (l : RateLimiter F)
      → l.global_limit ≢ 0
      → t / 10 ^ 9 ≡ w
      → counted w l + 1 < 2 ^ 64
      → let found = (check_source float hash t ip l).1 in
        let after = check float hash t ip l in
        (after.1 ≡ (found && ltb (counted w l) l.global_limit))
        × (after.0.global_limit ≡ l.global_limit)
        × (counted w after.0 ≡ (if found then counted w l + 1 else counted w l))
  unfolding check
  check_lem w t ip l n e h =
      let l' = (check_source float hash t ip l).0 in
      let same = check_source-SameCap t ip l in
      let count = counted-SameCap w l l' same in
      elim (Bool-cases (check_source float hash t ip l).1) [
        | inr f ↦ rw (f, check) (refl, same.limit, count)
        | inl f ↦
            let (allowed, limit, more) = check_global_lem w t l' (rw same.limit n) e (rw count h) in
            rw (f, check)
              (
                allowed
                    ∙ (ap (λ k. ltb k l'.global_limit) count
                        ∙ ap (λ k. ltb (counted w l) k) same.limit),
                limit ∙ same.limit,
                more ∙ ap (λ k. k + 1) count,
              )
      ]

  check-unlimited :
      (t : ℕ) (ip : Bytes) (l : RateLimiter F)
      → l.global_limit ≡ 0
      → ((check float hash t ip l).1 ≡ (check_source float hash t ip l).1)
        × ((check float hash t ip l).0.global_limit ≡ 0)
  unfolding check
  check-unlimited t ip l n =
      let same = check_source-SameCap t ip l in
      elim (Bool-cases (check_source float hash t ip l).1) [
        | inr f ↦ rw (f, check) (refl, same.limit ∙ n)
        | inl f ↦
            rw (f, check)
              (check_global-unlimited t (check_source float hash t ip l).0 (same.limit ∙ n))
      ]

  -- Where the global limit is 0, it stops no call: of those that find a token of their source, each is
  -- let through.
  passed-unlimited :
      (cs : List Call) (l : RateLimiter F) → l.global_limit ≡ 0 → passed cs l ≡ within_source cs l
  unfolding passed within_source
  passed-unlimited [] l n = refl
  passed-unlimited ((t, ip) ∷ cs) l n =
      let (allowed, limit) = check-unlimited t ip l n in
      rw (allowed, passed-unlimited cs (check float hash t ip l).0 limit) refl

  -- With a global limit other than 0: of calls in one window, fewer than a `u64` counts, the limiter
  -- lets through as many of those that find a token of their source as the limit has left, and no more.
  pub passed-in_window :
      (w : ℕ) (cs : List Call) (l : RateLimiter F)
      → l.global_limit ≢ 0
      → All (λ c. c.0 / 10 ^ 9 ≡ w) cs
      → counted w l + length cs < 2 ^ 64
      → passed cs l ≡ min (within_source cs l) (l.global_limit - counted w l)
  unfolding passed within_source
  passed-in_window w [] l n a h = omega arith
  passed-in_window w ((t, ip) ∷ cs) l n a h =
      let after = (check float hash t ip l).0 in
      let (allowed, limit, count) = check_lem w t ip l n a.0 (omega arith) in
      elim (Bool-cases (check_source float hash t ip l).1) [
        | inl f ↦
            let more : counted w after ≡ counted w l + 1 = rw f at count in
            let ih = passed-in_window w cs after (rw limit n) a.1 (rw more (omega arith)) in
            rw (allowed, f, ih, limit, more) (ground arith)
        | inr f ↦
            let more : counted w after ≡ counted w l = rw f at count in
            let ih = passed-in_window w cs after (rw limit n) a.1 (rw more (omega arith)) in
            rw (allowed, f, ih, limit, more) refl
      ]
