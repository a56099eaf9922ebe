-- ===== src/Supervisor/Monitor.antt =====
-- The loop of serviceMonitor in supervisor/supervisor.go, over the events that it receives.
use Prim.Native.String.{String}
use go_utils.Prelude.{
  ℕ, zero, suc, ◌-◌, ◌≤◌, ◌<◌, ◌≡◌, refl, Bool, true, false, ◌||◌, Option, none, some, List, [],
  ◌∷◌, arith, length, take,
}
use go_utils.Errutil.{Error, append}
use go_utils.Supervisor.{
  Selected, crashed, sent_nil, closed, remove_at, monitor_step, Monitored, finished, unless_done,
  service_monitor,
}

-- The error that is reported after some events, from the one before them.
abbrev pub first_error : Option Error → List Selected → Option Error
first_error (some e) events = some e
first_error none [] = none
first_error none (crashed n e ∷ events) = first_error (append none (some e ∷ [])) events
first_error none (sent_nil n ∷ events) = first_error none events
first_error none (closed n ∷ events) = first_error none events

abbrev pub any_crash : List Selected → Bool
any_crash [] = false
any_crash (crashed n e ∷ events) = true
any_crash (sent_nil n ∷ events) = any_crash events
any_crash (closed n ∷ events) = any_crash events

abbrev pub count_closed : List Selected → ℕ
count_closed [] = 0
count_closed (crashed n e ∷ events) = count_closed events
count_closed (sent_nil n ∷ events) = count_closed events
count_closed (closed n ∷ events) = suc (count_closed events)

-- Each event that closes a channel names one of the services that are left.
abbrev pub AreInRange : ℕ → List Selected → Type 0
AreInRange left [] = Unit
AreInRange left (crashed n e ∷ events) = AreInRange left events
AreInRange left (sent_nil n ∷ events) = AreInRange left events
AreInRange left (closed n ∷ events) = (n < left) × AreInRange (left - 1) events

length-remove_at :
    (ss : List String) (n : ℕ) → n < length ss → length (remove_at ss n) ≡ length ss - 1
unfolding remove_at
length-remove_at [] n h = absurd (omega arith)
length-remove_at (s ∷ ss) zero h = omega arith
length-remove_at (s ∷ ss) (suc n) h =
    let e : length (remove_at ss n) ≡ length ss - 1 = length-remove_at ss n (omega arith) in
    omega arith

-- What the events before the end are, where `ss` are the services, `err` the error so far, and `c`
-- says if the context has been cancelled.
abbrev pub EndsAfter : List Selected → List String → Option Error → Bool → Monitored → Type 0
EndsAfter events ss err c o =
    (k : ℕ) × (o ≡ finished (first_error err (take k events)) (c || any_crash (take k events)))
    × (count_closed (take k events) ≡ length ss)

or_true : (c : Bool) → c || true ≡ true
or_true c = ground arith

or_false : (c : Bool) → c || false ≡ c
or_false c = ground arith

first_error-nil : (err : Option Error) → first_error err [] ≡ err
first_error-nil none = refl
first_error-nil (some e) = refl

first_error-sent_nil :
    (err : Option Error) (n : ℕ) (events : List Selected)
    → first_error err (sent_nil n ∷ events) ≡ first_error err events
first_error-sent_nil none n events = refl
first_error-sent_nil (some e) n events = refl

first_error-closed :
    (err : Option Error) (n : ℕ) (events : List Selected)
    → first_error err (closed n ∷ events) ≡ first_error err events
first_error-closed none n events = refl
first_error-closed (some e) n events = refl

EndsAfter-crashed :
    (n : ℕ) (e : Error) (events : List Selected) (ss : List String) (err : Option Error) (c : Bool)
    (o : Monitored)
    → EndsAfter events ss (elim err [ none ↦ append none (some e ∷ []) | some f ↦ some f ]) true o
    → EndsAfter (crashed n e ∷ events) ss err c o
EndsAfter-crashed n e events ss none c o (k, q, l) = (suc k, rw (or_true c) q, l)
EndsAfter-crashed n e events ss (some f) c o (k, q, l) = (suc k, rw (or_true c) q, l)

-- If every service closes its channel, the monitor comes to an end when the last one has: it sends the
-- first error that came until then, if there was one, and the context has been cancelled if any came.
pub service_monitor_ends :
    (events : List Selected) (ss : List String) (err : Option Error) (c : Bool)
    → AreInRange (length ss) events
    → length ss ≤ count_closed events
    → EndsAfter events ss err c
        (service_monitor events (record { services = ss; err = err; cancelled = c }))
unfolding service_monitor unless_done monitor_step
service_monitor_ends [] [] err c r h = (0, rw (first_error-nil err, or_false c) refl, refl)
service_monitor_ends [] (s ∷ ss) err c r h = absurd (omega arith)
service_monitor_ends (e ∷ events) [] err c r h =
    (0, rw (first_error-nil err, or_false c) refl, refl)
service_monitor_ends (crashed n e ∷ events) (s ∷ ss) err c r h =
    EndsAfter-crashed n e events (s ∷ ss) err c _ (service_monitor_ends events (s ∷ ss) _ true r h)
service_monitor_ends (sent_nil n ∷ events) (s ∷ ss) err c r h =
    let (k, q, l) = service_monitor_ends events (s ∷ ss) err c r h in
    (suc k, rw (first_error-sent_nil err n (take k events)) q, l)
service_monitor_ends (closed n ∷ events) (s ∷ ss) err c (i, r) h =
    let e = length-remove_at (s ∷ ss) n i in
    let (k, q, l) =
      service_monitor_ends events (remove_at (s ∷ ss) n) err c (rw e r) (rw e (omega arith)) in
    (suc k, rw (first_error-closed err n (take k events)) q, omega arith)
