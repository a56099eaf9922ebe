-- ===== src/Supervisor/Reloader.antt =====
-- The Reloader of supervisor/reloader.go. What its two goroutines receive and do is a list of events in
-- the order in which they happen, of which a reload is one; fmt.Errorf is a parameter.
pub mod OneService
pub mod Reported
use Prim.Native.String.{String}
use go_utils.Errutil.{Error, plain, append}
use go_utils.Prelude.{Bool, true, false, Option, none, some, List, [], ◌∷◌, ◌++◌, if◌then◌else◌}

module _ (S : Type 0) where
  pub data Event : Type 0 where
    -- serviceFactoryRoutine sets factoryCancel, and later its factory fails
    factory_begins : Event
    factory_fails : Error → Event
    -- what serviceReloaderRoutine receives from the service: an error, or nil when the service has ended
    service_ends : Option Error → Event
    factory_closes : Event
    -- a new service, what the old one ends with, and what Start of the new one returns
    factory_sends : S → Option Error → Option Error → Event

  -- The calls that are made for a service: serviceCancel, what Wait of it gave, and what Start of it
  -- returned.
  pub data Call : Type 0 where
    cancels : S → Call
    waits : S → Option Error → Call
    starts : S → Option Error → Call

  -- The fields that change, and the calls so far, in their order.
  pub record Reloader : Type 0 where
    pub service_err : Option Error
    pub service : S
    pub factory_cancel_set : Bool
    pub calls : List Call

  pub data Ran : Type 0 where
    running : Reloader → Ran
    -- waitCh is closed, after an error if there is one
    finished : Reloader → Ran
    -- the deferred function calls factoryCancel, which is nil
    panicked : Ran

  -- What reloadService returns.
  pub record Reloaded : Type 0 where
    pub reloader : Reloader
    pub err : Option Error

module _ {S : Type 0} where
  unfoldable pub add_service_err : Error → Reloader S → Reloader S
  unfolding append
  add_service_err e r = record r { service_err = append r.service_err (some e ∷ []) }

  unfoldable pub call : Call S → Reloader S → Reloader S
  call c r = record r { calls = r.calls ++ c ∷ [] }

  -- The deferred function, from factoryCancel on.
  unfoldable pub finish : Reloader S → Ran S
  unfolding call
  finish r = if r.factory_cancel_set then finished (call (cancels r.service) r) else panicked

  -- Start, up to the goroutines: a dummy service.
  unfoldable pub start_reloader : S → Reloader S
  start_reloader dummy = record {
    service_err = none;
    service = dummy;
    factory_cancel_set = false;
    calls = starts dummy none ∷ [];
  }

module _ {S : Type 0} (errorf : String → Error → String) where
  unfoldable pub reload_service : S → Option Error → Option Error → Reloader S → Reloaded S
  unfolding call
  reload_service s stop_err start_err r =
      let asked = call (cancels r.service) r in
      let waited = call (waits r.service stop_err) asked in
      let updated = record waited { service = s } in
      elim stop_err [
        | some e ↦ record {
          reloader = waited;
          err = some (plain (errorf "service reloader: failed to stop service: %w" e));
        }
        | none ↦ record {
          reloader = call (starts s start_err) updated;
          err = elim start_err [
            | none ↦ none
            | some e ↦ some (plain (errorf "service reloader: failed to start service: %w" e))
          ];
        }
      ]

  -- The two goroutines, until serviceReloaderRoutine returns.
  unfoldable pub run_reloader : List (Event S) → Reloader S → Ran S
  unfolding finish add_service_err reload_service call
  run_reloader [] r = running r
  run_reloader (factory_begins ∷ es) r = run_reloader es (record r { factory_cancel_set = true })
  run_reloader (factory_fails e ∷ es) r =
      run_reloader es (call (cancels r.service) (add_service_err e r))
  run_reloader (service_ends none ∷ es) r = finish (call (waits r.service none) r)
  run_reloader (service_ends (some e) ∷ es) r =
      finish (add_service_err e (call (waits r.service (some e)) r))
  run_reloader (factory_closes ∷ es) r = finish r
  run_reloader (factory_sends s stop_err start_err ∷ es) r =
      let reloaded = reload_service s stop_err start_err r in
      let more = run_reloader es reloaded.reloader in
      elim reloaded.err [ none ↦ more | some e ↦ finish (add_service_err e reloaded.reloader) ]
