-- ===== src/ZoneManager/Kept.antt =====
-- src/zone_manager.rs: the histories of the zones over loads and reloads.
use ironbind.Prelude.{◌≡◌, refl, ◌∙◌, Option, none, some, List, [], ◌∷◌, Result, ok, err, arith}
use ironbind.Prelude.Text.{Bytes}
use ironbind.Prelude.Assoc.{bytes_key, lookup}
use ironbind.Proto.Reader.{IoError}
use ironbind.Zone.{Zone}
use ironbind.ZoneManager.{
  ZoneManager, new, push_delta, record_edit, load_zone, reload_each, reload_all,
}
use ironbind.ZoneManager.History.{IsBounded, load_zone-IsBounded}

-- Every history is within the cap, and the cap is the one of `new`.
pub record IsKept (m : ZoneManager) : Type 0 where
  pub bounded : IsBounded m
  pub cap : m.history_cap ≡ 32

pub new-IsKept : IsKept new
unfolding new IsBounded lookup
new-IsKept = record { bounded = λ origin ds e. ground arith; cap = refl }

record_edit-cap :
    (origin : Bytes) (z : Zone) (old : Option Zone) (m : ZoneManager)
    → (record_edit origin z old m).history_cap ≡ m.history_cap
unfolding record_edit push_delta
record_edit-cap origin z none m = refl
record_edit-cap origin z (some old) m = ground arith

load_zone-cap :
    (origin path : Bytes) (r : Result Zone IoError) (m : ZoneManager)
    → (load_zone origin path r m).0.history_cap ≡ m.history_cap
unfolding load_zone
load_zone-cap origin path (err e) m = refl
load_zone-cap origin path (ok z) m = record_edit-cap origin z (lookup origin m.zones) m

pub load_zone-IsKept :
    (origin path : Bytes) (r : Result Zone IoError) (m : ZoneManager)
    → IsKept m
    → IsKept (load_zone origin path r m).0
load_zone-IsKept origin path r m h = record {
  bounded = load_zone-IsBounded origin path r m h.bounded;
  cap = load_zone-cap origin path r m ∙ h.cap;
}

reload_each-IsKept :
    (load : Bytes → Bytes → Result Zone IoError) (files : List (Bytes × Bytes)) (m : ZoneManager)
    → IsKept m
    → IsKept (reload_each load files m).0
unfolding reload_each
reload_each-IsKept load [] m h = h
reload_each-IsKept load ((origin, path) ∷ files) m h =
    reload_each-IsKept load files (load_zone origin path (load origin path) m).0
      (load_zone-IsKept origin path (load origin path) m h)

pub reload_all-IsKept :
    (load : Bytes → Bytes → Result Zone IoError) (m : ZoneManager)
    → IsKept m
    → IsKept (reload_all load m).0
unfolding reload_all
reload_all-IsKept load m h = reload_each-IsKept load m.zone_files m h
