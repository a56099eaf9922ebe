-- ===== src/Supervisor/Examples.antt =====
-- A run of the monitor with two services, of which one crashes.
use go_utils.Prelude.{ℕ, false, Option, none, some, List, [], ◌∷◌, arith, if◌then◌else◌}
use Prim.Native.String.{String}
use text.Mathlib.Text.{◌==◌ as str_eq}
use go_utils.Errutil.{Error, plain, parts}
use go_utils.Supervisor.Reloader.{
  Event, factory_begins, factory_fails, service_ends, factory_sends, start_reloader, run_reloader,
}
use go_utils.Supervisor.Reloader.OneService.{EndsWithOne, start_reloader-RunsOne}
use go_utils.Supervisor.Reloader.Reported.{
  AreFlatErrors, Reports, errors_until, start_reloader-Reports,
}
use go_utils.Supervisor.{Selected, crashed, closed, service_monitor}
use go_utils.Supervisor.Monitor.{EndsAfter, service_monitor_ends}

abbrev crash_events : List Selected
crash_events = crashed 1 (plain "crash") ∷ closed 1 ∷ closed 0 ∷ []

service_monitor_ends_example : EndsAfter crash_events ("api" ∷ "feed" ∷ []) none false (
    service_monitor crash_events
      (record { services = "api" ∷ "feed" ∷ []; err = none; cancelled = false }))
service_monitor_ends_example =
    service_monitor_ends crash_events ("api" ∷ "feed" ∷ []) none false
      (omega arith, (omega arith, tt)) (omega arith)

-- The second service does not start.
abbrev start_of : String → Option Error
start_of = λ s. if str_eq s "feed" then some (plain "refused") else none

abbrev no_format : String → Error → String
no_format = λ text e. text

-- Two services after the dummy, and the end of the factory and of the last service with an error.
abbrev reloads : List (Event ℕ)
reloads =
    factory_begins
    ∷ factory_sends 1 none none
    ∷ factory_sends 2 none none
    ∷ factory_fails (plain "no service")
    ∷ service_ends (some (plain "cancelled"))
    ∷ []

start_reloader-RunsOne_example : EndsWithOne (run_reloader no_format reloads (start_reloader 0))
start_reloader-RunsOne_example = start_reloader-RunsOne no_format reloads 0

reloads-AreFlatErrors : AreFlatErrors no_format reloads
unfolding parts
reloads-AreFlatErrors = (tt, (tt, tt))

start_reloader-Reports_example :
    Reports no_format
      (errors_until no_format reloads)
      (run_reloader no_format reloads (start_reloader 0))
start_reloader-Reports_example = start_reloader-Reports no_format reloads 0 reloads-AreFlatErrors
