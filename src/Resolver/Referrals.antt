-- ===== src/Resolver/Referrals.antt =====
-- src/resolver.rs: the turns of the iterative walk that go on: referrals and CNAMEs.
use ironbind.Prelude.{
  ◌<◌, length, All, ◌≡◌, refl, ◌∙◌, Bool, true, false, not, ◌&&◌, ◌||◌, ◌⊎◌, some, List, [], ◌∷◌,
  ◌++◌, arith, ◌==◌, if◌then◌else◌, filter, find?, any, is_empty, Bool-cases, Option-cases, inl,
  inr,
}
use ironbind.Prelude.Text.{Bytes, dot, to_ascii_lowercase, bytes_eq}
use ironbind.Proto.RType.{RType, rtype_eq}
use ironbind.Proto.Packet.{Packet, rcode, rcode_nxdomain}
use ironbind.Resolver.Below.{
  IsPlain, IsZoneName, bare, in_bailiwick-lowercase, IsZoneName-lowercase, in_bailiwick-below,
}
use ironbind.Resolver.{
  in_bailiwick, parse_name_from_rdata, ResolveResult, serv_fail, Iter, Turn, finish, again,
  empty_referral, root_servers, keep_bailiwick, on_answers, glue, delegated_names, Network,
  resolve_ns, delegate_to, delegate, on_referral, on_reply,
}

find?-filter {ℓ} :
    {A : Type ℓ} (p q : A → Bool) (xs : List A) (x : A)
    → find? p (filter q xs) ≡ some x
    → q x ≡ true
find?-filter p q [] x h = absurd (ground arith)
find?-filter p q (y ∷ ys) x h = elim (Bool-cases (q y)) [
  | inr e ↦ find?-filter p q ys x (rw e at h)
  | inl e ↦ elim (Bool-cases (p y)) [
    | inl f ↦ let k = rw (e, f) at h in let same : y ≡ x = ground arith in rw (← same) e
    | inr f ↦ find?-filter p q ys x (rw (e, f) at h)
  ]
]

find?-All {ℓ κ} :
    {A : Type ℓ} (P : A → Type κ) (p q : A → Bool) (xs : List A) (x : A)
    → All P xs
    → find? p (filter q xs) ≡ some x
    → P x
find?-All P p q [] x a h = absurd (ground arith)
find?-All P p q (y ∷ ys) x (a, rest) h = elim (Bool-cases (q y)) [
  | inr e ↦ find?-All P p q ys x rest (rw e at h)
  | inl e ↦ elim (Bool-cases (p y)) [
    | inl f ↦ let k = rw (e, f) at h in let same : y ≡ x = ground arith in rw (← same) a
    | inr f ↦ find?-All P p q ys x rest (rw (e, f) at h)
  ]
]

-- A referral: the same name in a zone that is in the present one, has a longer name, and contains the
-- name that is looked up.
pub record Narrows (s s' : Iter) : Type 0 where
  pub same_name : s'.current_name ≡ s.current_name
  pub same_chain : s'.cname_chain ≡ s.cname_chain
  pub inside : in_bailiwick s'.current_zone s.current_zone ≡ true
  pub below : length (bare s.current_zone) < length (bare s'.current_zone)
  pub zone_name : IsZoneName s'.current_zone
  pub within : in_bailiwick s'.current_name s'.current_zone ≡ true

-- A CNAME: another name, that was not looked up before the present one, from the root again.
pub record Restarts (s s' : Iter) : Type 0 where
  pub from_root : s'.current_zone ≡ dot ∷ []
  pub from_root_servers : s'.nameservers ≡ root_servers
  pub noted : s'.cname_chain ≡ s.cname_chain ++ (s.current_name ∷ [])
  pub fresh : any (bytes_eq s'.current_name) s.cname_chain ≡ false

abbrev pub Moves : Iter → Turn → Type 0
Moves s (finish r) = Unit
Moves s (again s') = Narrows s s' ⊎ Restarts s s'

on_answers-Moves : (qtype : RType) (s : Iter) (p : Packet) → Moves s (on_answers qtype s p)
unfolding on_answers
on_answers-Moves qtype s p =
    elim (Option-cases (find? (λ r. rtype_eq r.rtype RType.cname) p.answers)) [
      | inl e ↦ rw (e, on_answers) tt
      | inr (cn, e) ↦ elim (Bool-cases (rtype_eq qtype RType.cname)) [
        | inl c ↦ rw (e, on_answers, c) tt
        | inr c ↦
            elim (Bool-cases (
              is_empty (parse_name_from_rdata cn.rdata)
              || any (bytes_eq (parse_name_from_rdata cn.rdata)) s.cname_chain)) [
                | inl l ↦ rw (e, on_answers, c, l) tt
                | inr l ↦
                    rw (e, on_answers, c, l)
                      (inr (record {
                        from_root = refl;
                        from_root_servers = refl;
                        noted = refl;
                        fresh = ground arith;
                      }))
              ]
      ]
    ]

module _ {W : Type 0} (net : Network W) where
  if_Moves :
      (s : Iter) (b : Bool) (x y : Turn × W)
      → Moves s x.0
      → Moves s y.0
      → Moves s (if b then x else y).0
  if_Moves s true x y h k = h
  if_Moves s false x y h k = k

  delegate-Moves :
      (nested : Bytes → W → ResolveResult × W) (s : Iter) (zone : Bytes) (p : Packet) (w : W)
      → in_bailiwick zone s.current_zone ≡ true
      → length (bare s.current_zone) < length (bare zone)
      → IsZoneName zone
      → in_bailiwick s.current_name zone ≡ true
      → Moves s (delegate net nested s zone p w).0
  unfolding delegate delegate_to
  delegate-Moves nested s zone p w inside below zone_name within =
      let ns_names = delegated_names zone p.authority in
      let known = glue ns_names p.additional in
      let found = if is_empty known then resolve_ns net nested ns_names w else (known, w) in
      let went : (next : List Bytes)
          → Moves s (again (record s { nameservers = next; current_zone = zone })) =
        λ next. inl (record {
          same_name = refl;
          same_chain = refl;
          inside = inside;
          below = below;
          zone_name = zone_name;
          within = within;
        }) in
      if_Moves s (is_empty ns_names) (finish (serv_fail empty_referral), w)
        (delegate_to net s zone found) tt (if_Moves s (is_empty found.0) _ _ tt (went found.0))

  on_referral-Moves :
      (nested : Bytes → W → ResolveResult × W) (s : Iter) (raw : Packet) (w : W)
      → IsZoneName s.current_zone
      → All (λ r. IsPlain r.name) raw.authority
      → Moves s (on_referral net nested s (keep_bailiwick s.current_zone raw) w).0
  unfolding on_referral keep_bailiwick
  on_referral-Moves nested s raw w z plain =
      let kept = keep_bailiwick s.current_zone raw in
      elim (Option-cases (find? (λ r. rtype_eq r.rtype RType.ns) kept.authority)) [
        | inl e ↦ rw (e, on_referral) tt
        | inr (r, e) ↦
            let zone = to_ascii_lowercase r.name in
            elim (Bool-cases
              (not (bytes_eq zone s.current_zone) && in_bailiwick s.current_name zone)) [
                | inr c ↦ rw (e, on_referral, c) tt
                | inl c ↦
                    let inside : in_bailiwick zone s.current_zone ≡ true =
                      in_bailiwick-lowercase r.name s.current_zone
                      ∙ find?-filter _ (λ x. in_bailiwick x.name s.current_zone) raw.authority r
                          e in
                    let zone_name : IsZoneName zone = IsZoneName-lowercase r.name (
                      find?-All (λ x. IsPlain x.name) _ (λ x. in_bailiwick x.name s.current_zone)
                        raw.authority r plain e) in
                    let below =
                      in_bailiwick-below zone s.current_zone zone_name z inside (ground arith) in
                    rw (e, on_referral, c)
                      (delegate-Moves nested s zone kept w inside below zone_name (ground arith))
              ]
      ]

  -- Where the present zone and the owners in the authority section are each "." or a non-empty name
  -- with no dot at its end, and the zone is in lower case: a turn of the walk that goes on, on the
  -- reply less the records outside the present zone, follows a referral into a zone strictly below
  -- the present one that contains the name, or a CNAME to a name that was not looked up before the
  -- present one, again from the root.
  pub on_reply-Moves :
      (nested : Bytes → W → ResolveResult × W) (qtype : RType) (s : Iter) (raw : Packet) (w : W)
      → IsZoneName s.current_zone
      → All (λ r. IsPlain r.name) raw.authority
      → Moves s (on_reply net nested qtype s (keep_bailiwick s.current_zone raw) w).0
  unfolding on_reply
  on_reply-Moves nested qtype s raw w z plain =
      let p = keep_bailiwick s.current_zone raw in
      elim (Bool-cases (rcode p == rcode_nxdomain)) [
        | inl e ↦ rw (e, on_reply) tt
        | inr e ↦ elim (Bool-cases (is_empty p.answers)) [
          | inr a ↦ rw (e, on_reply, a) (on_answers-Moves qtype s p)
          | inl a ↦ elim (Bool-cases (is_empty p.authority)) [
            | inr b ↦ rw (e, on_reply, a, b) (on_referral-Moves nested s raw w z plain)
            | inl b ↦ rw (e, on_reply, a, b) tt
          ]
        ]
      ]
