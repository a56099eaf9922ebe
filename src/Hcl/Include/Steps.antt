-- ===== src/Hcl/Include/Steps.antt =====
-- What a success of Include of hcl/ext/include/include.go says of each of its calls.
use go_utils.Hcl.Include.{
  Note, has_errors, Answer, refused, answered, on_answer, Included, panics, fails, gives,
  unless_errors, Loaded, crashes, stop, load, then_load,
}
use go_utils.Hcl.Include.Tree.{Succeeds}
use go_utils.Prelude.{Bool, true, false, ◌≡◌, refl, sym, ap, ◌∙◌, List, if◌then◌else◌, Bytes}

-- What holds of the result, and not of that of an error, holds of the rest of the code.
pub answered_of :
    {A B : Type 0} (P : B → Type 0) (r : Answer A) (back : Bytes → B) (go : A → B)
    → ((e : Bytes) → P (back e) → ⊥)
    → P (on_answer r back go)
    → (a : A) × (r ≡ answered a) × P (go a)
unfolding on_answer
answered_of P (refused e) back go bad h = absurd (bad e h)
answered_of P (answered a) back go bad h = (a, refl, h)

pub Succeeds-of :
    {Body B : Type 0} (P : B → Type 0) (r : Included Body) (crash : B) (back : List Note → B)
    (go : Body → B)
    → (P crash → ⊥)
    → ((ds : List Note) → P (back ds) → ⊥)
    → P (unless_errors r crash back go)
    → (b : Body) × Succeeds r b × P (go b)
unfolding unless_errors
Succeeds-of P panics crash back go halt bad h = absurd (halt h)
Succeeds-of P (fails ds) crash back go halt bad h = absurd (test (has_errors ds) h)
  where
    test : (t : Bool) → P (if t then back ds else crash) → ⊥
    test true p = bad ds p
    test false p = halt p
Succeeds-of {Body} {B} P (gives b ds) crash back go halt bad h = test (has_errors ds) refl h
  where
    test :
        (t : Bool)
        → has_errors ds ≡ t
        → P (if t then back ds else go b)
        → (c : Body) × Succeeds (gives b ds) c × P (go c)
    test true q p = absurd (bad ds p)
    test false q p = (b, (ds, refl, q), p)

pub unless_errors-Succeeds :
    {Body B : Type 0} (r : Included Body) (crash : B) (back : List Note → B) (go : Body → B)
    {b : Body}
    → Succeeds r b
    → unless_errors r crash back go ≡ go b
unfolding unless_errors
unless_errors-Succeeds r crash back go {b} (ds, q, clean) =
    ap (λ s. unless_errors s crash back go) q ∙ ap (λ (t : Bool). if t then back ds else go b) clean

pub loaded_of :
    {Body : Type 0} (r : Loaded Body) (go : List Body → Loaded Body) {all : List Body}
    → then_load r go ≡ load all
    → (bodies : List Body) × (r ≡ load bodies) × (go bodies ≡ load all)
unfolding then_load
loaded_of crashes go h = cc
loaded_of (stop ds) go h = cc
loaded_of (load bodies) go h = (bodies, refl, h)

pub panics-not-Succeeds : {Body : Type 0} (b : Body) → Succeeds panics b → ⊥
panics-not-Succeeds b (es, q, clean) = cc

pub fails-not-Succeeds : {Body : Type 0} (ds : List Note) (b : Body) → Succeeds (fails ds) b → ⊥
fails-not-Succeeds ds b (es, q, clean) = cc

pub on_answer-answered :
    {A B : Type 0} (r : Answer A) (back : Bytes → B) (go : A → B) {a : A}
    → r ≡ answered a
    → on_answer r back go ≡ go a
unfolding on_answer
on_answer-answered r back go q = ap (λ o. on_answer o back go) q

pub then_load-load :
    {Body : Type 0} (r : Loaded Body) (go : List Body → Loaded Body) {bodies : List Body}
    → r ≡ load bodies
    → then_load r go ≡ go bodies
unfolding then_load
then_load-load r go q = ap (λ o. then_load o go) q

pub gives-Succeeds :
    {Body : Type 0} (b c : Body) (ds : List Note)
    → Succeeds (gives b ds) c
    → (c ≡ b) × (has_errors ds ≡ false)
gives-Succeeds b c ds (es, q, clean) =
    let same : es ≡ ds = cc in (cc, ap has_errors (sym same) ∙ clean)
