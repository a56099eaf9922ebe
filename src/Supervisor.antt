-- ===== src/Supervisor.antt =====
-- serviceMonitor of supervisor/supervisor.go. What reflect.Select receives from the services' channels is
-- a list of events; an event names the service by its position among those that are left.
pub mod Monitor
pub mod Launch
pub mod Reloader
pub mod Examples
use Prim.Native.String.{String}
use go_utils.Prelude.{ℕ, zero, suc, Bool, true, Option, none, some, List, [], ◌∷◌}
use go_utils.Errutil.{Error, append}

pub data Selected : Type 0 where
  crashed : ℕ → Error → Selected
  -- a nil error
  sent_nil : ℕ → Selected
  closed : ℕ → Selected

pub record Supervisor : Type 0 where
  pub services : List String
  pub err : Option Error
  pub cancelled : Bool

-- append(s.services[:n], s.services[n+1:]...)
unfoldable pub remove_at : List String → ℕ → List String
remove_at [] n = []
remove_at (s ∷ ss) zero = ss
remove_at (s ∷ ss) (suc n) = s ∷ remove_at ss n

-- One round of the loop: what is done for a crash, a nil error, and a closed channel.
unfoldable pub monitor_step : Selected → Supervisor → Supervisor
unfolding remove_at append
monitor_step (crashed n e) s = record s {
  err = elim s.err [ none ↦ append none (some e ∷ []) | some f ↦ some f ];
  cancelled = true;
}
monitor_step (sent_nil n) s = s
monitor_step (closed n) s = record s { services = remove_at s.services n }

-- What the monitor has done: sent an error, if there is one, and closed waitCh, or it still waits.
pub data Monitored : Type 0 where
  finished : Option Error → Bool → Monitored
  watching : Monitored

-- The test of the loop; `more` is the next round.
unfoldable pub unless_done : Supervisor → Monitored → Monitored
unless_done s more = elim s.services [ [] ↦ finished s.err s.cancelled | x ∷ xs ↦ more ]

unfoldable pub service_monitor : List Selected → Supervisor → Monitored
unfolding unless_done monitor_step
service_monitor [] s = unless_done s watching
service_monitor (e ∷ events) s = unless_done s (service_monitor events (monitor_step e s))
