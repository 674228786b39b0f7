-- ===== src/Server/Zones.antt =====
-- src/server.rs: the zone that answers a query.
use ironbind.Prelude.{
  ◌≡◌, refl, ap, ◌≤◌, ◌<◌, ◌⊎◌, true, false, Option, none, some, List, [], ◌∷◌, ◌++◌, arith, ltb,
  length, All, All-append, Bool-cases, Option-cases, inl, inr,
}
use ironbind.Prelude.Text.{Bytes}
use ironbind.Zone.{Zone, is_authoritative_for}
use ironbind.Server.Authority.{best_zone}

-- Not for the name.
abbrev IsOther : Bytes → Zone → Type 0
IsOther name y = is_authoritative_for y name ≡ false

abbrev IsNoLonger : Bytes → Zone → Zone → Type 0
IsNoLonger name z y = IsOther name y ⊎ (length y.origin ≤ length z.origin)

abbrev IsShorter : Bytes → Zone → Zone → Type 0
IsShorter name z y = IsOther name y ⊎ (length y.origin < length z.origin)

-- The last of the zones for the name whose origin is the longest.
pub record IsMostSpecific (name : Bytes) (zs : List Zone) (z : Zone) : Type 0 where
  pub before : List Zone
  pub after : List Zone
  pub split : zs ≡ before ++ (z ∷ after)
  pub authoritative : is_authoritative_for z name ≡ true
  pub earlier : All (IsNoLonger name z) before
  pub later : All (IsShorter name z) after

abbrev pub BestOf : Bytes → List Zone → Option Zone → Type 0
BestOf name zs none = All (IsOther name) zs
BestOf name zs (some z) = IsMostSpecific name zs z

others-IsShorter :
    (name : Bytes) (z : Zone) (zs : List Zone) → All (IsOther name) zs → All (IsShorter name z) zs
others-IsShorter name z [] h = tt
others-IsShorter name z (y ∷ zs) (h, hs) = (inl h, others-IsShorter name z zs hs)

IsNoLonger-IsShorter :
    (name : Bytes) (b z : Zone) (zs : List Zone)
    → length b.origin < length z.origin
    → All (IsNoLonger name b) zs
    → All (IsShorter name z) zs
IsNoLonger-IsShorter name b z [] l h = tt
IsNoLonger-IsShorter name b z (y ∷ zs) l (h, hs) =
    (elim h [ inl a ↦ inl a | inr k ↦ inr (omega arith) ], IsNoLonger-IsShorter name b z zs l hs)

IsShorter-IsShorter :
    (name : Bytes) (b z : Zone) (zs : List Zone)
    → length b.origin < length z.origin
    → All (IsShorter name b) zs
    → All (IsShorter name z) zs
IsShorter-IsShorter name b z [] l h = tt
IsShorter-IsShorter name b z (y ∷ zs) l (h, hs) =
    (elim h [ inl a ↦ inl a | inr k ↦ inr (omega arith) ], IsShorter-IsShorter name b z zs l hs)

-- A zone with a longer origin in front of those that `b` is the best of.
longer-IsMostSpecific :
    (name : Bytes) (z b : Zone) (zs : List Zone)
    → is_authoritative_for z name ≡ true
    → length b.origin < length z.origin
    → IsMostSpecific name zs b
    → IsMostSpecific name (z ∷ zs) z
longer-IsMostSpecific name z b zs a l h = record {
  before = [];
  after = zs;
  split = refl;
  authoritative = a;
  earlier = tt;
  later = rw h.split (
      All-append (IsShorter name z) h.before (b ∷ h.after)
        (IsNoLonger-IsShorter name b z h.before l h.earlier)
        (inr l, IsShorter-IsShorter name b z h.after l h.later));
}

-- A zone in front that is not longer, or not for the name.
behind-IsMostSpecific :
    (name : Bytes) (z b : Zone) (zs : List Zone)
    → IsNoLonger name b z
    → IsMostSpecific name zs b
    → IsMostSpecific name (z ∷ zs) b
behind-IsMostSpecific name z b zs l h = record {
  before = z ∷ h.before;
  after = h.after;
  split = ap (λ ys. z ∷ ys) h.split;
  authoritative = h.authoritative;
  earlier = (l, h.earlier);
  later = h.later;
}

-- The zone that answers is the last of those for the name whose origin is the longest, so that no
-- zone shadows a child of it; no zone answers only if none is for the name.
pub best_zone-BestOf : (name : Bytes) (zs : List Zone) → BestOf name zs (best_zone name zs)
unfolding best_zone
best_zone-BestOf name [] = tt
best_zone-BestOf name (z ∷ zs) =
    let ih = best_zone-BestOf name zs in
    elim (Option-cases (best_zone name zs)) [
      | inl e ↦
          let none_best : All (IsOther name) zs = rw e at ih in
          elim (Bool-cases (is_authoritative_for z name)) [
            | inr a ↦ rw (a, e, best_zone) (a, none_best)
            | inl a ↦
                rw (a, e, best_zone)
                  (record {
                    before = [];
                    after = zs;
                    split = refl;
                    authoritative = a;
                    earlier = tt;
                    later = others-IsShorter name z zs none_best;
                  })
          ]
      | inr (b, e) ↦
          let best : IsMostSpecific name zs b = rw e at ih in
          elim (Bool-cases (is_authoritative_for z name)) [
            | inr a ↦ rw (a, e, best_zone) (behind-IsMostSpecific name z b zs (inl a) best)
            | inl a ↦ elim (Bool-cases (ltb (length b.origin) (length z.origin))) [
              | inl l ↦
                  let longer : length b.origin < length z.origin = ground arith in
                  rw (a, e, l, best_zone) (longer-IsMostSpecific name z b zs a longer best)
              | inr l ↦
                  let shorter : length z.origin ≤ length b.origin = ground arith in
                  rw (a, e, l, best_zone) (behind-IsMostSpecific name z b zs (inr shorter) best)
            ]
          ]
    ]
