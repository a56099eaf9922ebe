-- ===== src/Supervisor/Launch.antt =====
-- Watch and Start of supervisor/supervisor.go. What Start of a service returns is a parameter.
use Prim.Native.String.{String}
use go_utils.Errutil.{Error}
use go_utils.Supervisor.{Selected, Monitored, service_monitor}
use go_utils.Prelude.{
  ◌≡◌, refl, ap, inl, inr, Bool, false, not, Option, none, some, List, [], ◌∷◌, ◌++◌, if◌then◌else◌,
  Option-cases, All,
}

-- The fields before the monitor runs: the watched services, and whether ctx is set.
pub record Watching : Type 0 where
  pub services : List String
  pub has_ctx : Bool

-- Watch, which panics (`none`) once there is a context. The system monitor is a service of this name.
unfoldable pub watch : List String → Watching → Option Watching
watch services w =
    if w.has_ctx
    then none
    else some (record { services = w.services ++ services ++ "sysmon" ∷ []; has_ctx = false })

-- What has become of the services in the loop of Start: those whose Start was called, and the error that
-- ended it.
pub record Launched : Type 0 where
  pub called : List String
  pub err : Option Error

unfoldable pub call_first : String → Launched → Launched
call_first s l = record l { called = s ∷ l.called }

unfoldable pub start_services : (String → Option Error) → List String → Launched
unfolding call_first
start_services start_of [] = record { called = []; err = none }
start_services start_of (s ∷ ss) =
    let rest = start_services start_of ss in
    elim (start_of s) [
      | some e ↦ record { called = s ∷ []; err = some e }
      | none ↦ call_first s rest
    ]

pub data Start : Type 0 where
  only_once : Start
  context_is_nil : Start
  -- ctx is cancelled and waitCh is closed
  service_fails : Launched → Error → Start
  -- the monitor runs
  monitored : Launched → Monitored → Start

-- Start with a context (or nil), and what the monitor then receives.
unfoldable pub start : (String → Option Error) → Bool → List Selected → Watching → Start
unfolding start_services service_monitor
start start_of ctx events w =
    if w.has_ctx
    then only_once
    else if not ctx
    then context_is_nil
    else let l = start_services start_of w.services in
      elim l.err [
        | some e ↦ service_fails l e
        | none ↦ monitored l (
            service_monitor events
              (record { services = w.services; err = none; cancelled = false }))
      ]

-- Start of every service was called, in their order.
abbrev pub AllStart : (String → Option Error) → List String → Type 0
AllStart start_of ss = All (λ s. start_of s ≡ none) ss

-- Either all services start, or one fails, those before it having started and those after it not being
-- called.
pub data IsLaunch (start_of : String → Option Error) (ss : List String) (l : Launched)
    : Type 0 where
  all_start : l.called ≡ ss → l.err ≡ none → AllStart start_of ss → IsLaunch start_of ss l
  one_fails :
      (before : List String) (s : String) (rest : List String) (e : Error)
      → ss ≡ before ++ s ∷ rest
      → AllStart start_of before
      → start_of s ≡ some e
      → l.called ≡ before ++ s ∷ []
      → l.err ≡ some e
      → IsLaunch start_of ss l

call_first-IsLaunch :
    (start_of : String → Option Error) (s : String) (ss : List String) (l : Launched)
    → start_of s ≡ none
    → IsLaunch start_of ss l
    → IsLaunch start_of (s ∷ ss) (call_first s l)
unfolding call_first
call_first-IsLaunch start_of s ss l f (all_start c n a) = all_start (ap (λ cs. s ∷ cs) c) n (f, a)
call_first-IsLaunch start_of s ss l f (one_fails b t rest e q a g c n) =
    one_fails (s ∷ b) t rest e (ap (λ cs. s ∷ cs) q) (f, a) g (ap (λ cs. s ∷ cs) c) n

-- The loop of Start calls Start of the services in their order, up to the first that fails, whose error
-- ends it, or of all if none fails.
pub start_services-IsLaunch :
    (start_of : String → Option Error) (ss : List String)
    → IsLaunch start_of ss (start_services start_of ss)
unfolding start_services
start_services-IsLaunch start_of [] = all_start refl refl tt
start_services-IsLaunch start_of (s ∷ ss) = elim (Option-cases (start_of s)) [
  | inl f ↦
      rw (f, start_services)
        (call_first-IsLaunch start_of s ss _ f (start_services-IsLaunch start_of ss))
  | inr (e, f) ↦ rw (f, start_services) (one_fails [] s ss e refl tt f refl refl)
]
