-- ===== src/ZoneManager/Apply.antt =====
-- src/zone_manager.rs: the diff of two zones.
use ironbind.Prelude.{
  ◌≡◌, refl, true, not, ◌&&◌, ◌||◌, ◌↔◌, Option, none, some, List, [], ◌∷◌, arith, filter,
  Bool-cases, inl, inr,
}
use ironbind.Prelude.Text.{bytes_eq_iff, to_ascii_lowercase}
use ironbind.Proto.RType.{to_u16}
use ironbind.Proto.Packet.{Record}
use ironbind.Zone.{Zone}
use ironbind.ZoneManager.Delta.{
  ZoneDelta, soa_serial, first_soa, body_records, same_data, holds, and_then, delta_of, build_delta,
}

same_data_iff :
    (r s : Record)
    → (same_data r s ≡ true) ↔ (
        (to_ascii_lowercase r.name ≡ to_ascii_lowercase s.name)
        × (to_u16 r.rtype ≡ to_u16 s.rtype)
        × (r.rdata ≡ s.rdata))
unfolding same_data
same_data_iff r s =
    let n = bytes_eq_iff (to_ascii_lowercase r.name) (to_ascii_lowercase s.name) in
    let d = bytes_eq_iff r.rdata s.rdata in
    (λ h. (ground (arith, n), ground arith, ground (arith, d)), λ h. ground (arith, n, d))

same_data_sides : (r s t : Record) → same_data r s ≡ true → same_data r t ≡ same_data s t
unfolding same_data
same_data_sides r s t h = let e = (same_data_iff r s).0 h in rw (e.0, e.1, e.2) refl

holds_same : (rs : List Record) (r s : Record) → same_data r s ≡ true → holds rs r ≡ holds rs s
unfolding holds
holds_same [] r s h = refl
holds_same (t ∷ rs) r s h = rw (same_data_sides r s t h, holds_same rs r s h) refl

-- The records of `xs` whose data `ys` does not hold.
holds-filter :
    (xs ys : List Record) (r : Record)
    → holds (filter (λ x. not (holds ys x)) xs) r ≡ (holds xs r && not (holds ys r))
unfolding holds
holds-filter [] ys r = refl
holds-filter (x ∷ xs) ys r = elim (Bool-cases (same_data r x)) [
  | inl e ↦ ground (arith, e, holds_same ys r x e, holds-filter xs ys r)
  | inr e ↦ ground (arith, e, holds-filter xs ys r)
]

and_then-some {ℓ κ} :
    {A : Type ℓ} {B : Type κ} (o : Option A) (f : A → Option B) (b : B)
    → and_then o f ≡ some b
    → (x : A) × (o ≡ some x) × (f x ≡ some b)
and_then-some none f b h = cc
and_then-some (some x) f b h = (x, refl, h)

-- The delta between two zones has the serials of their SOA records, and a name, type and data stand
-- in the new zone exactly if the old zone has them and they are not removed, or they are added.
pub build_delta_applies :
    (old new : Zone) (d : ZoneDelta) (r : Record)
    → build_delta old new ≡ some d
    → (first_soa old ≡ some d.from_soa)
      × (first_soa new ≡ some d.to_soa)
      × (soa_serial d.from_soa.rdata ≡ some d.from_serial)
      × (soa_serial d.to_soa.rdata ≡ some d.to_serial)
      × (holds (body_records new) r
          ≡ ((holds (body_records old) r && not (holds d.removed r)) || holds d.added r))
unfolding build_delta
build_delta_applies old new d r h =
    let (a, ha, h1) = and_then-some (first_soa old) _ d h in
    let (b, hb, h2) = and_then-some (first_soa new) _ d h1 in
    let (s, hs, h3) = and_then-some (soa_serial a.rdata) _ d h2 in
    let (t, ht, h4) = and_then-some (soa_serial b.rdata) _ d h3 in
    let e : delta_of old new a b s t ≡ d = ground arith in
    rw (← e) (
      ha,
      hb,
      hs,
      ht,
      ground (
        arith,
        holds-filter (body_records old) (body_records new) r,
        holds-filter (body_records new) (body_records old) r,
      ),
    )
