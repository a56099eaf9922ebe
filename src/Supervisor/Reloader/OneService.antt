-- ===== src/Supervisor/Reloader/OneService.antt =====
-- Which services the Reloader of supervisor/reloader.go runs at a time.
use Prim.Native.String.{String}
use go_utils.Errutil.{Error}
use go_utils.Supervisor.Reloader.{
  Event, factory_begins, factory_fails, service_ends, factory_closes, factory_sends, Call, cancels,
  waits, starts, Reloader, Ran, running, finished, panicked, add_service_err, call, finish,
  start_reloader, reload_service, run_reloader,
}
use go_utils.Prelude.{◌⊎◌, inl, inr, Option, none, some, List, [], ◌∷◌, ◌++◌, Bool-cases}

-- How the services stand: none was started; the last one that was started is up, or it is cancelled; it was
-- cancelled and then waited for without an error; or it has ended otherwise.
pub data Stage (S : Type 0) : Type 0 where
  nothing : Stage S
  up called_off stopped over : S → Stage S

-- What a call may do. A service is started first of all, or if the one before it is stopped.
pub data Allowed {S : Type 0} : Stage S → Call S → Stage S → Type 0 where
  first_start : {s : S} {e : Option Error} → Allowed nothing (starts s e) (up s)
  next_start : {s n : S} {e : Option Error} → Allowed (stopped s) (starts n e) (up n)
  cancels_up : {s : S} → Allowed (up s) (cancels s) (called_off s)
  cancels_again : {s : S} → Allowed (called_off s) (cancels s) (called_off s)
  cancels_over : {s : S} → Allowed (over s) (cancels s) (over s)
  stops : {s : S} → Allowed (called_off s) (waits s none) (stopped s)
  fails_to_stop : {s : S} {e : Error} → Allowed (called_off s) (waits s (some e)) (over s)
  ends_up : {s : S} {e : Option Error} → Allowed (up s) (waits s e) (over s)
  ends_called_off : {s : S} {e : Option Error} → Allowed (called_off s) (waits s e) (over s)

-- The calls lead from one stage to the other.
pub data Leads {S : Type 0} (a : Stage S) : List (Call S) → Stage S → Type 0 where
  no_call : Leads a [] a
  then_call :
      {b d : Stage S} {cs : List (Call S)} {c : Call S}
      → Leads a cs b
      → Allowed b c d
      → Leads a (cs ++ c ∷ []) d

-- All calls were allowed, and led to the stage.
abbrev pub At : {S : Type 0} → Reloader S → Stage S → Type 0
At r st = Leads nothing r.calls st

-- The service is the last that was started, and it was not waited for.
abbrev pub RunsOne : {S : Type 0} → Reloader S → Type 0
RunsOne r = At r (up r.service) ⊎ At r (called_off r.service)

-- It was cancelled, or it has ended.
abbrev pub Ended : {S : Type 0} → Reloader S → Type 0
Ended r = At r (called_off r.service) ⊎ At r (over r.service)

abbrev pub EndsWithOne : {S : Type 0} → Ran S → Type 0
EndsWithOne (running r) = RunsOne r
EndsWithOne (finished r) = Ended r
EndsWithOne panicked = Unit

module _ {S : Type 0} where
  finish-EndsWithOne :
      (r : Reloader S) → (RunsOne r ⊎ At r (over r.service)) → EndsWithOne (finish r)
  unfolding finish call
  finish-EndsWithOne r h = elim (Bool-cases r.factory_cancel_set) [
    | inl c ↦ rw c (elim h [
      | inl (inl u) ↦ inl (then_call u cancels_up)
      | inl (inr u) ↦ inl (then_call u cancels_again)
      | inr u ↦ inr (then_call u cancels_over)
    ])
    | inr c ↦ rw c tt
  ]

  -- The service that runs is cancelled, or waited for.
  cancels-RunsOne :
      (r : Reloader S) → RunsOne r → At (call (cancels r.service) r) (called_off r.service)
  unfolding call
  cancels-RunsOne r (inl u) = then_call u cancels_up
  cancels-RunsOne r (inr u) = then_call u cancels_again

  waits-over :
      (r : Reloader S) (e : Option Error)
      → RunsOne r
      → At (call (waits r.service e) r) (over r.service)
  unfolding call
  waits-over r e (inl u) = then_call u ends_up
  waits-over r e (inr u) = then_call u ends_called_off

module _ {S : Type 0} (errorf : String → Error → String) where
  run_reloader-EndsWithOne :
      (es : List (Event S)) (r : Reloader S) → RunsOne r → EndsWithOne (run_reloader errorf es r)
  unfolding run_reloader reload_service add_service_err call
  run_reloader-EndsWithOne [] r h = h
  run_reloader-EndsWithOne (factory_begins ∷ es) r h = run_reloader-EndsWithOne es _ h
  run_reloader-EndsWithOne (factory_fails e ∷ es) r h =
      run_reloader-EndsWithOne es _ (inr (cancels-RunsOne r h))
  run_reloader-EndsWithOne (service_ends none ∷ es) r h =
      finish-EndsWithOne _ (inr (waits-over r none h))
  run_reloader-EndsWithOne (service_ends (some e) ∷ es) r h =
      finish-EndsWithOne _ (inr (waits-over r (some e) h))
  run_reloader-EndsWithOne (factory_closes ∷ es) r h = finish-EndsWithOne r (inl h)
  run_reloader-EndsWithOne (factory_sends s (some e) start_err ∷ es) r h =
      finish-EndsWithOne _ (inr (then_call (cancels-RunsOne r h) fails_to_stop))
  run_reloader-EndsWithOne (factory_sends s none none ∷ es) r h =
      run_reloader-EndsWithOne es _
        (inl (then_call (then_call (cancels-RunsOne r h) stops) next_start))
  run_reloader-EndsWithOne (factory_sends s none (some e) ∷ es) r h =
      finish-EndsWithOne _
        (inl (inl (then_call (then_call (cancels-RunsOne r h) stops) next_start)))

  -- For every sequence of events, of which a reload is one: unless the deferred function panics, each
  -- service but the first is started only after the one that was started before it was cancelled and then
  -- waited for without an error, the Reloader's service is always the last that was started, and at the
  -- end it is cancelled or has ended.
  pub start_reloader-RunsOne :
      (es : List (Event S)) (dummy : S)
      → EndsWithOne (run_reloader errorf es (start_reloader dummy))
  unfolding start_reloader
  start_reloader-RunsOne es dummy =
      run_reloader-EndsWithOne es (start_reloader dummy) (inl (then_call no_call first_start))
