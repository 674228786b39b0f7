-- ===== src/Resolver/Turns.antt =====
-- src/resolver.rs: what a turn of the iterative walk ends with, and the state that it goes on with.
use ironbind.Prelude.{
  ◌≡◌, refl, Bool, true, false, not, ◌&&◌, ◌||◌, List, [], ◌∷◌, arith, ◌==◌, if◌then◌else◌, find?,
  any, is_empty, Bool-cases, Option-cases, inl, inr,
}
use ironbind.Prelude.Text.{Bytes, dot, to_ascii_lowercase, bytes_eq, trim_end_dots}
use ironbind.Proto.RType.{RType, rtype_eq}
use ironbind.Proto.Packet.{Packet, rcode, rcode_nxdomain}
use ironbind.Resolver.{
  in_bailiwick, parse_name_from_rdata, ResolveResult, answer, nx_domain, serv_fail, Iter, Turn,
  finish, again, empty_referral, on_answers, glue, delegated_names, Network, resolve_ns,
  delegate_to, delegate, on_referral, on_reply,
}

-- The loop looks a name up in a zone that contains it.
abbrev pub IsWithin : Iter → Type 0
IsWithin s = in_bailiwick s.current_name s.current_zone ≡ true

pub in_root : (n : Bytes) → in_bailiwick n (dot ∷ []) ≡ true
unfolding in_bailiwick trim_end_dots
in_root n = refl

-- A turn that ends returns `p` or no packet; one that goes on keeps `IsWithin`.
abbrev pub TurnOf : Packet → Turn → Type 0
TurnOf p (finish (answer q)) = q ≡ p
TurnOf p (finish (nx_domain q)) = q ≡ p
TurnOf p (finish (serv_fail e)) = Unit
TurnOf p (again s) = IsWithin s

on_answers-TurnOf : (qtype : RType) (s : Iter) (p : Packet) → TurnOf p (on_answers qtype s p)
unfolding on_answers
on_answers-TurnOf qtype s p =
    elim (Option-cases (find? (λ r. rtype_eq r.rtype RType.cname) p.answers)) [
      | inl e ↦ rw (e, on_answers) refl
      | inr (cn, e) ↦ elim (Bool-cases (rtype_eq qtype RType.cname)) [
        | inl c ↦ rw (e, on_answers, c) refl
        | inr c ↦
            elim (Bool-cases (
              is_empty (parse_name_from_rdata cn.rdata)
              || any (bytes_eq (parse_name_from_rdata cn.rdata)) s.cname_chain)) [
                | inl l ↦ rw (e, on_answers, c, l) tt
                | inr l ↦ rw (e, on_answers, c, l) (in_root (parse_name_from_rdata cn.rdata))
              ]
      ]
    ]

module _ {W : Type 0} (net : Network W) where
  if_both :
      (p : Packet) (b : Bool) (x y : Turn × W)
      → TurnOf p x.0
      → TurnOf p y.0
      → TurnOf p (if b then x else y).0
  if_both p true x y h k = h
  if_both p false x y h k = k

  delegate_to-TurnOf :
      (s : Iter) (zone : Bytes) (p : Packet) (found : List Bytes × W)
      → in_bailiwick s.current_name zone ≡ true
      → TurnOf p (delegate_to net s zone found).0
  unfolding delegate_to
  delegate_to-TurnOf s zone p (next, w) h = if_both p (is_empty next) _ _ tt h

  delegate-TurnOf :
      (nested : Bytes → W → ResolveResult × W) (s : Iter) (zone : Bytes) (p : Packet) (w : W)
      → in_bailiwick s.current_name zone ≡ true
      → TurnOf p (delegate net nested s zone p w).0
  unfolding delegate
  delegate-TurnOf nested s zone p w h =
      let ns_names = delegated_names zone p.authority in
      let known = glue ns_names p.additional in
      let found = if is_empty known then resolve_ns net nested ns_names w else (known, w) in
      if_both p (is_empty ns_names) (finish (serv_fail empty_referral), w)
        (delegate_to net s zone found) tt (delegate_to-TurnOf s zone p found h)

  on_referral-TurnOf :
      (nested : Bytes → W → ResolveResult × W) (s : Iter) (p : Packet) (w : W)
      → TurnOf p (on_referral net nested s p w).0
  unfolding on_referral
  on_referral-TurnOf nested s p w =
      elim (Option-cases (find? (λ r. rtype_eq r.rtype RType.ns) p.authority)) [
        | inl e ↦ rw (e, on_referral) tt
        | inr (r, e) ↦
            elim (Bool-cases (
              not (bytes_eq (to_ascii_lowercase r.name) s.current_zone)
              && in_bailiwick s.current_name (to_ascii_lowercase r.name))) [
                | inl c ↦
                    rw (e, on_referral, c)
                      (delegate-TurnOf nested s (to_ascii_lowercase r.name) p w (ground arith))
                | inr c ↦ rw (e, on_referral, c) tt
              ]
      ]

  pub on_reply-TurnOf :
      (nested : Bytes → W → ResolveResult × W) (qtype : RType) (s : Iter) (p : Packet) (w : W)
      → TurnOf p (on_reply net nested qtype s p w).0
  unfolding on_reply
  on_reply-TurnOf nested qtype s p w = elim (Bool-cases (rcode p == rcode_nxdomain)) [
    | inl e ↦ rw (e, on_reply) refl
    | inr e ↦ elim (Bool-cases (is_empty p.answers)) [
      | inr a ↦ rw (e, on_reply, a) (on_answers-TurnOf qtype s p)
      | inl a ↦ elim (Bool-cases (is_empty p.authority)) [
        | inr b ↦ rw (e, on_reply, a, b) (on_referral-TurnOf nested s p w)
        | inl b ↦ rw (e, on_reply, a, b) refl
      ]
    ]
  ]
