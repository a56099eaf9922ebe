-- ===== src/Supervisor/Reloader/Reported.antt =====
-- The error that the Reloader of supervisor/reloader.go reports.
use Prim.Native.String.{String}
use go_utils.Errutil.{Error, plain, MultiError, nil, cons, concat, parts}
use go_utils.Errutil.Parts.{IsFlat, concat_assoc, parts-append}
use go_utils.Supervisor.Reloader.{
  Event, factory_begins, factory_fails, service_ends, factory_closes, factory_sends, Reloader, Ran,
  running, finished, panicked, add_service_err, call, finish, start_reloader, reload_service,
  run_reloader,
}
use go_utils.Prelude.{◌≡◌, refl, sym, ap, inl, inr, none, some, List, [], ◌∷◌, Bool-cases}

concat_nil : (es : MultiError) → concat es nil ≡ es
unfolding concat
concat_nil nil = refl
concat_nil (cons e es) = ap (cons e) (concat_nil es)

module _ {S : Type 0} (errorf : String → Error → String) where
  -- The errors that come up until the routine returns, in their order.
  abbrev pub errors_until : List (Event S) → MultiError
  errors_until [] = nil
  errors_until (factory_begins ∷ es) = errors_until es
  errors_until (factory_fails e ∷ es) = concat (parts (some e)) (errors_until es)
  errors_until (service_ends err ∷ es) = parts err
  errors_until (factory_closes ∷ es) = nil
  errors_until (factory_sends s (some e) start_err ∷ es) =
      cons (plain (errorf "service reloader: failed to stop service: %w" e)) nil
  errors_until (factory_sends s none none ∷ es) = errors_until es
  errors_until (factory_sends s none (some e) ∷ es) =
      cons (plain (errorf "service reloader: failed to start service: %w" e)) nil

  -- The errors of the events are nil, plain, or flat lists.
  abbrev pub AreFlatErrors : List (Event S) → Type 0
  AreFlatErrors [] = Unit
  AreFlatErrors (factory_begins ∷ es) = AreFlatErrors es
  AreFlatErrors (factory_fails e ∷ es) = IsFlat (parts (some e)) × AreFlatErrors es
  AreFlatErrors (service_ends err ∷ es) = IsFlat (parts err) × AreFlatErrors es
  AreFlatErrors (factory_closes ∷ es) = AreFlatErrors es
  AreFlatErrors (factory_sends s stop_err start_err ∷ es) = AreFlatErrors es

  abbrev pub Reports : MultiError → Ran S → Type 0
  Reports errs (running r) = parts r.service_err ≡ errs
  Reports errs (finished r) = parts r.service_err ≡ errs
  Reports errs panicked = Unit

  parts-add_service_err :
      (e : Error) (r : Reloader S)
      → IsFlat (parts r.service_err)
      → IsFlat (parts (some e))
      → (parts (add_service_err e r).service_err ≡ concat (parts r.service_err) (parts (some e)))
        × IsFlat (parts (add_service_err e r).service_err)
  unfolding add_service_err
  parts-add_service_err e r h k = parts-append r.service_err (some e ∷ []) (h, (k, tt))

  finish-Reports :
      (r : Reloader S) (errs : MultiError) → parts r.service_err ≡ errs → Reports errs (finish r)
  unfolding finish call
  finish-Reports r errs h = elim (Bool-cases r.factory_cancel_set) [
    | inl c ↦ rw c h
    | inr c ↦ rw c tt
  ]

  run_reloader-Reports :
      (es : List (Event S)) (r : Reloader S)
      → IsFlat (parts r.service_err)
      → AreFlatErrors es
      → Reports (concat (parts r.service_err) (errors_until es)) (run_reloader errorf es r)
  unfolding run_reloader reload_service parts call add_service_err
  run_reloader-Reports [] r h k = sym (concat_nil _)
  run_reloader-Reports (factory_begins ∷ es) r h k = run_reloader-Reports es _ h k
  run_reloader-Reports (factory_fails e ∷ es) r h (f, k) =
      let (same, flat) = parts-add_service_err e r h f in
      let rest = run_reloader-Reports es _ flat k in
      rw (← concat_assoc (parts r.service_err) (parts (some e)) (errors_until es), ← same) rest
  run_reloader-Reports (service_ends none ∷ es) r h (f, k) = finish-Reports _ _ (sym (concat_nil _))
  run_reloader-Reports (service_ends (some e) ∷ es) r h (f, k) =
      finish-Reports _ _ (parts-add_service_err e r h f).0
  run_reloader-Reports (factory_closes ∷ es) r h k = finish-Reports r _ (sym (concat_nil _))
  run_reloader-Reports (factory_sends s (some e) start_err ∷ es) r h k =
      let failure = plain (errorf "service reloader: failed to stop service: %w" e) in
      finish-Reports _ _ (parts-add_service_err failure r h tt).0
  run_reloader-Reports (factory_sends s none none ∷ es) r h k = run_reloader-Reports es _ h k
  run_reloader-Reports (factory_sends s none (some e) ∷ es) r h k =
      let after = (reload_service errorf s none (some e) r).reloader in
      let failure = plain (errorf "service reloader: failed to start service: %w" e) in
      finish-Reports (add_service_err failure after) _ (parts-add_service_err failure after h tt).0

  -- If no error of the events is a MultiError inside a MultiError, then, unless the deferred function
  -- panics, the error of a Reloader consists of exactly the errors that came up until its routine
  -- returned, in their order: those of the factory, of the service that ended, and of the stop or the start
  -- that ended the routine.
  pub start_reloader-Reports :
      (es : List (Event S)) (dummy : S)
      → AreFlatErrors es
      → Reports (errors_until es) (run_reloader errorf es (start_reloader dummy))
  unfolding start_reloader parts concat
  start_reloader-Reports es dummy k = run_reloader-Reports es (start_reloader dummy) tt k
