-- ===== src/ZoneManager.antt =====
-- src/zone_manager.rs: the active zones, their versions and their edit history. Each lock is held
-- within one call, and `load_zone` has the manager to itself (`&mut self`), so a call is one step.
pub mod Delta
pub mod History
pub mod Kept
pub mod Apply
pub mod Sign
pub mod Signed
use ironbind.Prelude.{
  ℕ, zero, suc, ◌+◌, ◌%◌, ◌^◌, Bool, true, false, not, Option, none, some, List, [], ◌∷◌, ◌++◌,
  Result, ok, err, ltb, ◌==◌, if◌then◌else◌, length, drop, map,
}
use mathlib.Core.Option
use ironbind.Prelude.Text.{Bytes}
use ironbind.Prelude.Assoc.{Assoc, bytes_key, lookup, insert}
use ironbind.Proto.Packet.{Record}
use ironbind.Proto.Reader.{IoError}
use ironbind.Zone.{Zone}
use ironbind.ZoneManager.Delta.{ZoneDelta, build_delta}

pub record ZoneManager : Type 0 where
  pub zones : Assoc Bytes Zone
  pub zone_files : Assoc Bytes Bytes
  pub versions : Assoc Bytes ℕ
  pub history : Assoc Bytes (List ZoneDelta)
  pub history_cap : ℕ

unfoldable pub new : ZoneManager
new = record { zones = []; zone_files = []; versions = []; history = []; history_cap = 32 }

-- `while queue.len() > cap { queue.pop_front(); }`
unfoldable pub trim_front : ℕ → List ZoneDelta → List ZoneDelta
trim_front cap [] = []
trim_front cap (d ∷ ds) =
    let rest = trim_front cap ds in if ltb cap (length ds + 1) then rest else d ∷ ds

abbrev pub or_empty : Option (List ZoneDelta) → List ZoneDelta
or_empty none = []
or_empty (some ds) = ds

unfoldable pub push_delta : Bytes → ZoneDelta → ZoneManager → ZoneManager
unfolding trim_front
push_delta origin d m = if d.from_serial == d.to_serial then m else record m {
  history =
      insert origin (trim_front m.history_cap (or_empty (lookup origin m.history) ++ (d ∷ [])))
        m.history;
}

-- If a previous version exists, its diff joins the history.
unfoldable pub record_edit : Bytes → Zone → Option Zone → ZoneManager → ZoneManager
record_edit origin new_zone none m = m
record_edit origin new_zone (some old) m = elim (build_delta old new_zone) [
  | none ↦ m
  | some d ↦ push_delta origin d m
]

abbrev or_zero : Option ℕ → ℕ
or_zero none = 0
or_zero (some v) = v

-- `get_version`
unfoldable pub get_version : Bytes → ZoneManager → ℕ
get_version origin m = or_zero (lookup origin m.versions)

-- `load_zone`, from the zone that reading and signing the file gave, or the error that it met.
unfoldable pub load_zone : Bytes → Bytes → Result Zone IoError → ZoneManager → ZoneManager × Bool
unfolding get_version
load_zone origin path (err e) m = (m, false)
load_zone origin path (ok z) m =
    let edited = record_edit origin z (lookup origin m.zones) m in
    (
      record edited {
        zone_files = insert origin path edited.zone_files;
        versions = insert origin ((get_version origin edited + 1) % 2 ^ 32) edited.versions;
        zones = insert origin z edited.zones;
      },
      true,
    )

-- The loop of `reload_all` over the list of files, with what each load gives.
unfoldable pub reload_each :
    (Bytes → Bytes → Result Zone IoError) → List (Bytes × Bytes) → ZoneManager → ZoneManager × ℕ
unfolding load_zone
reload_each load [] m = (m, 0)
reload_each load ((origin, path) ∷ files) m =
    let (m', done) = load_zone origin path (load origin path) m in
    let (m'', count) = reload_each load files m' in (m'', if done then count + 1 else count)

unfoldable pub reload_all : (Bytes → Bytes → Result Zone IoError) → ZoneManager → ZoneManager × ℕ
unfolding reload_each
reload_all load m = reload_each load m.zone_files m

unfoldable pub get_zone : Bytes → ZoneManager → Option Zone
get_zone origin m = lookup origin m.zones

unfoldable pub get_zones : ZoneManager → List Zone
get_zones m = map (λ (kv : Bytes × Zone). kv.1) m.zones

-- The walk of `ixfr_chain` over the deltas behind the first one.
unfoldable pub follow : ℕ → List ZoneDelta → Option (List ZoneDelta)
follow expected [] = some []
follow expected (d ∷ ds) =
    let rest = follow d.to_serial ds in
    if d.from_serial == expected then Option.map (λ ds. d ∷ ds) rest else none

-- From the first delta that starts at `from_serial`.
unfoldable pub chain_from : ℕ → List ZoneDelta → Option (List ZoneDelta)
unfolding follow
chain_from from_serial [] = none
chain_from from_serial (d ∷ ds) =
    if d.from_serial == from_serial
    then Option.map (λ ds. d ∷ ds) (follow d.to_serial ds)
    else chain_from from_serial ds

unfoldable pub ixfr_chain : Bytes → ℕ → ZoneManager → Option (List ZoneDelta)
unfolding chain_from
ixfr_chain origin from_serial m = elim (lookup origin m.history) [
  | none ↦ none
  | some queue ↦ chain_from from_serial queue
]
