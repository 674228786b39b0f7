-- ===== src/Config/Allowed.antt =====
-- src/config.rs: which networks a configuration allows recursion to.
use ironbind.Prelude.{
  ◌≡◌, ◌⊎◌, refl, sym, ap, Option, none, some, List, [], ◌∷◌, Result, ok, err, map, Option-cases,
  Result-cases, inl, inr,
}
use mathlib.Core.Path.{subst}
use ironbind.Prelude.Text.{codes}
use ironbind.Prelude.Chars.{Chars}
use ironbind.Config.Network.{Network, parse_network}
use ironbind.Config.Toml.{
  Toml, TomlVal, Read, value, nothing, panic, parse_str, get_value, get_array, array_of,
}
use ironbind.Config.Load.{
  ServerConfig, LoadError, invalid_network, panics, server_section, default_allow_recursion,
  parse_all, parse_networks, allowed_networks, configure, load_toml, load,
}

abbrev NetworksOf : List Chars → Result (List Network) LoadError → Type 0
NetworksOf ss (err e) = Unit
NetworksOf ss (ok ns) = map parse_network ss ≡ map some ns

parse_networks-NetworksOf : (ss : List Chars) → NetworksOf ss (parse_networks ss)
unfolding parse_networks
parse_networks-NetworksOf [] = refl
parse_networks-NetworksOf (s ∷ ss) = elim (Option-cases (parse_network s)) [
  | inl bad ↦
      let e : parse_networks (s ∷ ss) ≡ err (invalid_network s) = rw (parse_networks, bad) refl in
      subst (NetworksOf (s ∷ ss)) (sym e) _
  | inr (n, good) ↦ elim (Result-cases (parse_networks ss)) [
    | inr (x, failed) ↦
        let e : parse_networks (s ∷ ss) ≡ err x = rw (parse_networks, good, failed) refl in
        subst (NetworksOf (s ∷ ss)) (sym e) _
    | inl (ns, more) ↦
        let e : parse_networks (s ∷ ss) ≡ ok (n ∷ ns) = rw (parse_networks, good, more) refl in
        let ih = subst (NetworksOf ss) more (parse_networks-NetworksOf ss) in
        subst (NetworksOf (s ∷ ss)) (sym e) (rw good (ap (λ rs. some n ∷ rs) ih))
  ]
]

-- The networks that a value of `allow_recursion` stands for: where it is set, those of its entries,
-- one for each and in their order; else the default ones.
abbrev pub AllowsOnly : Option TomlVal → List Network → Type 0
AllowsOnly none ns = ns ≡ parse_all default_allow_recursion
AllowsOnly (some v) ns = map parse_network (array_of v) ≡ map some ns

abbrev AllowsOnlyOf : Option TomlVal → Result (List Network) LoadError → Type 0
AllowsOnlyOf v (err e) = Unit
AllowsOnlyOf v (ok ns) = AllowsOnly v ns

NetworksOf-AllowsOnlyOf :
    (v : TomlVal) (r : Result (List Network) LoadError)
    → NetworksOf (array_of v) r
    → AllowsOnlyOf (some v) r
NetworksOf-AllowsOnlyOf v (ok ns) h = h
NetworksOf-AllowsOnlyOf v (err e) h = _

allowed_networks-AllowsOnlyOf :
    (t : Toml)
    → AllowsOnlyOf
        (get_value t server_section (codes "allow_recursion"))
        (allowed_networks t (parse_all default_allow_recursion))
unfolding allowed_networks get_array
allowed_networks-AllowsOnlyOf t =
    elim (Option-cases (get_value t server_section (codes "allow_recursion"))) [
      | inl absent ↦
          let e : allowed_networks t (parse_all default_allow_recursion)
              ≡ ok (parse_all default_allow_recursion) =
            rw (allowed_networks, absent) refl in
          rw absent (subst (AllowsOnlyOf none) (sym e) refl)
      | inr (v, present) ↦
          let entries : get_array t server_section (codes "allow_recursion") ≡ array_of v =
            rw (get_array, present) refl in
          let e : allowed_networks t (parse_all default_allow_recursion)
              ≡ parse_networks (array_of v) =
            rw (allowed_networks, present) (ap parse_networks entries) in
          rw present (
            subst (AllowsOnlyOf (some v)) (sym e) (
              NetworksOf-AllowsOnlyOf v (parse_networks (array_of v))
                (parse_networks-NetworksOf (array_of v))))
    ]

abbrev Loaded : Chars → Result ServerConfig LoadError → Type 0
Loaded content (err e) = Unit
Loaded content (ok c) =
    (t : Toml) × (parse_str content ≡ value t)
    × AllowsOnly (get_value t server_section (codes "allow_recursion")) c.allow_recursion

load_toml-Loaded :
    (content : Chars) (t : Toml) → parse_str content ≡ value t → Loaded content (load_toml t)
unfolding load_toml configure
load_toml-Loaded content t h =
    elim (Result-cases (allowed_networks t (parse_all default_allow_recursion))) [
      | inr (x, failed) ↦
          let e : load_toml t ≡ err x = rw (load_toml, failed) refl in
          subst (Loaded content) (sym e) _
      | inl (ns, allowed) ↦
          let e : load_toml t ≡ ok (configure t ns) = rw (load_toml, allowed) refl in
          subst (Loaded content) (sym e) (
            t,
            h,
            subst (AllowsOnlyOf (get_value t server_section (codes "allow_recursion"))) allowed
                (allowed_networks-AllowsOnlyOf t),
          )
    ]

Read-cases : (r : Read Toml) → ((t : Toml) × (r ≡ value t)) ⊎ (r ≡ nothing) ⊎ (r ≡ panic)
Read-cases (value t) = inl (t, refl)
Read-cases nothing = inr (inl refl)
Read-cases panic = inr (inr refl)

load-Loaded : (content : Chars) → Loaded content (load (ok content))
unfolding load
load-Loaded content = elim (Read-cases (parse_str content)) [
  | inl (t, parsed) ↦
      let e : load (ok content) ≡ load_toml t = rw (load, parsed) refl in
      subst (Loaded content) (sym e) (load_toml-Loaded content t parsed)
  | inr (inl none_read) ↦
      let e : load (ok content) ≡ err panics = rw (load, none_read) refl in
      subst (Loaded content) (sym e) _
  | inr (inr panicked) ↦
      let e : load (ok content) ≡ err panics = rw (load, panicked) refl in
      subst (Loaded content) (sym e) _
]

-- Where a configuration loads from the text of its file, the networks that recursion is allowed to
-- are those of the entries of `allow_recursion`, one for each entry and in their order, so that no
-- entry failed to parse; where the file does not set it, they are the default ones.
pub load-AllowsOnly :
    (content : Chars) (c : ServerConfig)
    → load (ok content) ≡ ok c
    → (t : Toml) × (parse_str content ≡ value t)
      × AllowsOnly (get_value t server_section (codes "allow_recursion")) c.allow_recursion
load-AllowsOnly content c h = subst (Loaded content) h (load-Loaded content)
