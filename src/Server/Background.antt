-- ===== src/Server/Background.antt =====
-- src/signals.rs, and of src/server.rs the loops that `run` starts beside the listeners: the sweep of
-- the cache, and the watcher that reloads the zones.
use ironbind.Prelude.{
  ℕ, ◌-◌, ◌*◌, ◌^◌, Bool, true, false, ◌||◌, List, [], ◌∷◌, Result, leb, if◌then◌else◌,
}
use ironbind.Prelude.Text.{Bytes}
use ironbind.Proto.Reader.{IoError}
use ironbind.Cache.{evict_expired}
use ironbind.Zone.{Zone}
use ironbind.ZoneManager.{reload_all, get_zones}
use ironbind.Server.State.{State}
use ironbind.Server.Serve.{Serving, note_core}

abbrev pub resign_interval : ℕ
resign_interval = 24 * 3600 * 10 ^ 9

-- The flag that the handler of SIGHUP sets, and the locals of the watcher. Times are in nanoseconds.
pub record Watcher : Type 0 where
  pub reload_signal : Bool
  pub last_signed : ℕ

unfoldable pub handle_sighup : Watcher → Watcher
handle_sighup w = record w { reload_signal = true }

-- `compare_exchange(true, false)`: the flag that is left, and whether it was set.
abbrev should_reload : Bool → Bool × Bool
should_reload flag = (false, flag)

abbrev serve_zones : {W : Type 0} → List Zone → State W → State W
serve_zones [] st = st
serve_zones (z ∷ zs) st = record st { zones = z ∷ zs }

module _ {F W : Type 0} where
  -- One turn of the sweep.
  unfoldable pub cache_eviction : ℕ → Serving F W → Serving F W
  cache_eviction now s = note_core (λ st. record st { cache = evict_expired now st.cache }) s

  unfoldable pub reload_zones : (Bytes → Bytes → Result Zone IoError) → Serving F W → Serving F W
  reload_zones read s =
      let (manager, count) = reload_all read s.zone_manager in
      note_core (serve_zones (get_zones manager)) (record s { zone_manager = manager })

  -- One turn of the watcher.
  unfoldable pub reload_watcher :
      (Bytes → Bytes → Result Zone IoError) → ℕ → Watcher → Serving F W → Watcher × Serving F W
  unfolding reload_zones
  reload_watcher read now w s =
      let resign_due = leb resign_interval (now - w.last_signed) in
      let (flag, signalled) = should_reload w.reload_signal in
      let cleared = record w { reload_signal = flag } in
      if signalled || resign_due
      then (record cleared { last_signed = now }, reload_zones read s)
      else (cleared, s)
