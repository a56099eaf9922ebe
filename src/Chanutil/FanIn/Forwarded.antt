-- ===== src/Chanutil/FanIn/Forwarded.antt =====
-- What a FanIn of chanutil/chainutil.go sends of each input channel.
use go_utils.Chanutil.FanIn.{
  Routine, FanIn, Event, input, close, receives, sends, ends, Stepped, stepped, stuck, panicked,
  new_routine, new_routines, set_routine, receive, send, end_routine, with_routine, fan_in_step,
  and_then, fan_in_run, new_fan_in, all_done,
}
use mathlib.Core.Path.{subst}
use go_utils.Prelude.{
  ℕ, zero, suc, ◌≡◌, refl, sym, ap, ◌∙◌, ◌≢◌, ◌⊎◌, inl, inr, Bool, true, Option, none, some, List,
  [], ◌∷◌, ◌++◌, append-nil, append_assoc, arith, nat_beq, if◌then◌else◌, Bool-cases, Option-cases,
  get_elem?, set, get_elem?-set_ne, get_or,
}

module _ {T : Type 0} where
  -- The values that goroutine `i` has sent.
  abbrev pub from : ℕ → List (ℕ × T) → List T
  from i [] = []
  from i ((j, v) ∷ out) = let rest = from i out in if nat_beq i j then v ∷ rest else rest

  -- The channels given to Input, in their order.
  abbrev pub inputs : List (Event T) → List (List T)
  inputs [] = []
  inputs (input chs ∷ es) = chs ++ inputs es
  inputs (close ∷ es) = inputs es
  inputs (receives i ∷ es) = inputs es
  inputs (sends i ∷ es) = inputs es
  inputs (ends i ∷ es) = inputs es

  abbrev held_values : Option T → List T
  held_values none = []
  held_values (some v) = v ∷ []

  abbrev channels : List (Routine T) → List (List T)
  channels [] = []
  channels (r ∷ rs) = r.channel ∷ channels rs

  -- A goroutine has sent a part of its channel, holds the next value, and has the rest before it; when it
  -- is done, there is none.
  record Moves (sent : List T) (r : Routine T) : Type 0 where
    order : sent ++ (held_values r.held ++ r.rest) ≡ r.channel
    at_end : r.is_done ≡ true → (r.held ≡ none) × (r.rest ≡ [])

  abbrev Tracks : List T → Option (Routine T) → Type 0
  Tracks sent none = sent ≡ []
  Tracks sent (some r) = Moves sent r

  record Forwards (chs : List (List T)) (f : FanIn T) : Type 0 where
    given : channels f.routines ≡ chs
    tracked : (i : ℕ) → Tracks (from i f.out) (get_elem? f.routines i)

  abbrev Holds : List (List T) → Stepped T → Type 0
  Holds chs (stepped f) = Forwards chs f
  Holds chs stuck = Unit
  Holds chs panicked = Unit

  from-append :
      (i j : ℕ) (v : T) (out : List (ℕ × T))
      → from i (out ++ (j, v) ∷ []) ≡ from i out ++ (if nat_beq i j then v ∷ [] else [])
  from-append i j v [] = refl
  from-append i j v ((k, w) ∷ out) = ground (arith, from-append i j v out)

  from-append_other :
      (i j : ℕ) (v : T) (out : List (ℕ × T)) → i ≢ j → from j (out ++ (i, v) ∷ []) ≡ from j out
  from-append_other i j v [] n = ground (arith, n)
  from-append_other i j v ((k, w) ∷ out) n = ground (arith, from-append_other i j v out n)

  channels-append :
      (rs : List (Routine T)) (chs : List (List T))
      → channels (rs ++ new_routines chs) ≡ channels rs ++ chs
  unfolding new_routines new_routine
  channels-append [] [] = refl
  channels-append [] (ch ∷ chs) = ap (λ cs. ch ∷ cs) (channels-append [] chs)
  channels-append (r ∷ rs) chs = ap (λ cs. r.channel ∷ cs) (channels-append rs chs)

  channels-set :
      (rs : List (Routine T)) (i : ℕ) (r q : Routine T)
      → get_elem? rs i ≡ some r
      → q.channel ≡ r.channel
      → channels (set rs i q) ≡ channels rs
  channels-set [] i r q g e = refl
  channels-set (p ∷ rs) zero r q g e =
      let same : p ≡ r = cc in ap (λ c. c ∷ channels rs) (e ∙ ap (λ x. x.channel) (sym same))
  channels-set (p ∷ rs) (suc i) r q g e = ap (λ cs. p.channel ∷ cs) (channels-set rs i r q g e)

  get_elem?-set :
      (rs : List (Routine T)) (i : ℕ) (r q : Routine T)
      → get_elem? rs i ≡ some r
      → get_elem? (set rs i q) i ≡ some q
  get_elem?-set [] i r q g = cc
  get_elem?-set (p ∷ rs) zero r q g = refl
  get_elem?-set (p ∷ rs) (suc i) r q g = get_elem?-set rs i r q g

  Tracks-new : (chs : List (List T)) (i : ℕ) → Tracks [] (get_elem? (new_routines chs) i)
  unfolding new_routines new_routine
  Tracks-new [] i = refl
  Tracks-new (ch ∷ chs) zero = record { order = refl; at_end = λ e. cc }
  Tracks-new (ch ∷ chs) (suc i) = Tracks-new chs i

  Tracks-append :
      (rs : List (Routine T)) (chs : List (List T)) (i : ℕ) (sent : List T)
      → Tracks sent (get_elem? rs i)
      → Tracks sent (get_elem? (rs ++ new_routines chs) i)
  Tracks-append [] chs i sent h = rw h (Tracks-new chs i)
  Tracks-append (r ∷ rs) chs zero sent h = h
  Tracks-append (r ∷ rs) chs (suc i) sent h = Tracks-append rs chs i sent h

  tracked_at :
      (chs : List (List T)) (f : FanIn T) (i : ℕ) (r : Routine T)
      → Forwards chs f
      → get_elem? f.routines i ≡ some r
      → Moves (from i f.out) r
  tracked_at chs f i r h g = let t = h.tracked i in rw g at t

  -- One goroutine changes, and what it has sent is what `out` has of it.
  Forwards-set :
      (chs : List (List T)) (f : FanIn T) (i : ℕ) (r q : Routine T) (out : List (ℕ × T)) (b : Bool)
      → get_elem? f.routines i ≡ some r
      → q.channel ≡ r.channel
      → Forwards chs f
      → Moves (from i out) q
      → ((j : ℕ) → i ≢ j → from j out ≡ from j f.out)
      → Forwards chs (record { is_closed = b; out = out; routines = set f.routines i q })
  Forwards-set chs f i r q out b g e h m same = record {
    given = channels-set f.routines i r q g e ∙ h.given;
    tracked = λ j. elim (Bool-cases (nat_beq i j)) [
      | inl here ↦
          let k : i ≡ j = ground arith in
          subst (λ j. Tracks (from j out) (get_elem? (set f.routines i q) j)) k
            (rw (get_elem?-set f.routines i r q g) m)
      | inr other ↦
          let n : i ≢ j = λ k. ground arith in
          rw (get_elem?-set_ne f.routines q n, same j n) (h.tracked j)
    ];
  }

  List-cases : (vs : List T) → (vs ≡ []) ⊎ ((w : T) × (ws : List T) × (vs ≡ w ∷ ws))
  List-cases [] = inl refl
  List-cases (w ∷ ws) = inr (w, ws, refl)

  module _ (chs : List (List T)) (i : ℕ) (r : Routine T) (f : FanIn T)
      (g : get_elem? f.routines i ≡ some r) (h : Forwards chs f) where
    receive-Holds : Holds chs (receive i r f)
    unfolding receive set_routine
    receive-Holds = elim (Option-cases r.held) [
      | inr (v, e) ↦ rw (e, receive) tt
      | inl e ↦ elim (List-cases r.rest) [
        | inl q ↦ rw (e, q, receive) tt
        | inr (v, vs, q) ↦
            let m = tracked_at chs f i r h g in
            let new : Moves (from i f.out) (record r { rest = vs; held = some v }) = record {
              order = rw (e, q) at m.order;
              at_end = λ d. let z = (m.at_end d).1 in absurd (cc);
            } in
            rw (e, q, receive) (Forwards-set chs f i r _ f.out _ g refl h new (λ j n. refl))
      ]
    ]

    send-Holds : Holds chs (send i r f)
    unfolding send set_routine
    send-Holds = elim (Option-cases r.held) [
      | inl e ↦ rw (e, send) tt
      | inr (v, e) ↦ elim (Bool-cases f.is_closed) [
        | inl c ↦ rw (e, c, send) tt
        | inr c ↦
            let m = tracked_at chs f i r h g in
            let sent : from i (f.out ++ (i, v) ∷ []) ≡ from i f.out ++ v ∷ [] =
              from-append i i v f.out ∙ ground arith in
            let new : Moves (from i (f.out ++ (i, v) ∷ [])) (record r { held = none }) = record {
              order = rw (sent, append_assoc (from i f.out) (v ∷ []) r.rest) (rw e at m.order);
              at_end = λ d. let z = (m.at_end d).0 in absurd (cc);
            } in
            rw (e, c, send)
              (Forwards-set chs f i r _ _ _ g refl h new (λ j n. from-append_other i j v f.out n))
      ]
    ]

    end_routine-Holds : Holds chs (end_routine i r f)
    unfolding end_routine set_routine
    end_routine-Holds = elim (Option-cases r.held) [
      | inr (v, e) ↦ rw (e, end_routine) tt
      | inl e ↦ elim (List-cases r.rest) [
        | inr (v, vs, q) ↦ rw (e, q, end_routine) tt
        | inl q ↦ elim (Bool-cases r.is_done) [
          | inl d ↦ rw (e, q, d, end_routine) tt
          | inr d ↦
              let m = tracked_at chs f i r h g in
              let new : Moves (from i f.out) (record r { is_done = true }) = record {
                order = m.order;
                at_end = λ k. (e, q);
              } in
              rw (e, q, d, end_routine)
                (Forwards-set chs f i r _ f.out _ g refl h new (λ j n. refl))
        ]
      ]
    ]

  fan_in_step-Holds :
      (chs : List (List T)) (e : Event T) (f : FanIn T)
      → Forwards chs f
      → Holds (chs ++ inputs (e ∷ [])) (fan_in_step e f)
  unfolding fan_in_step with_routine
  fan_in_step-Holds chs (input more) f h = elim (Bool-cases f.is_closed) [
    | inl c ↦ rw (c, fan_in_step) tt
    | inr c ↦
        rw (c, fan_in_step)
          (record {
            given = channels-append f.routines more ∙ rw (h.given, append-nil more) refl;
            tracked = λ i. Tracks-append f.routines more i (from i f.out) (h.tracked i);
          })
  ]
  fan_in_step-Holds chs close f h =
      rw (append-nil chs) (record { given = h.given; tracked = h.tracked })
  fan_in_step-Holds chs (receives i) f h =
      rw (append-nil chs) (elim (Option-cases (get_elem? f.routines i)) [
        | inl g ↦ rw (g, with_routine) tt
        | inr (r, g) ↦ rw (g, with_routine) (receive-Holds chs i r f g h)
      ])
  fan_in_step-Holds chs (sends i) f h =
      rw (append-nil chs) (elim (Option-cases (get_elem? f.routines i)) [
        | inl g ↦ rw (g, with_routine) tt
        | inr (r, g) ↦ rw (g, with_routine) (send-Holds chs i r f g h)
      ])
  fan_in_step-Holds chs (ends i) f h =
      rw (append-nil chs) (elim (Option-cases (get_elem? f.routines i)) [
        | inl g ↦ rw (g, with_routine) tt
        | inr (r, g) ↦ rw (g, with_routine) (end_routine-Holds chs i r f g h)
      ])

  and_then-Holds :
      (chs more : List (List T)) (st : Stepped T) (k : FanIn T → Stepped T)
      → Holds chs st
      → ((f : FanIn T) → Forwards chs f → Holds more (k f))
      → Holds more (and_then st k)
  unfolding and_then
  and_then-Holds chs more (stepped f) k h go = go f h
  and_then-Holds chs more stuck k h go = tt
  and_then-Holds chs more panicked k h go = tt

  inputs-cons : (e : Event T) (es : List (Event T)) → inputs (e ∷ es) ≡ inputs (e ∷ []) ++ inputs es
  inputs-cons (input chs) es = rw (append-nil chs) refl
  inputs-cons close es = refl
  inputs-cons (receives i) es = refl
  inputs-cons (sends i) es = refl
  inputs-cons (ends i) es = refl

  fan_in_run-Holds :
      (es : List (Event T)) (chs : List (List T)) (f : FanIn T)
      → Forwards chs f
      → Holds (chs ++ inputs es) (fan_in_run es f)
  unfolding fan_in_run
  fan_in_run-Holds [] chs f h = rw (append-nil chs) h
  fan_in_run-Holds (e ∷ es) chs f h =
      and_then-Holds (chs ++ inputs (e ∷ [])) _ (fan_in_step e f) _ (fan_in_step-Holds chs e f h)
        (λ g k.
          rw (inputs-cons e es, ← append_assoc chs (inputs (e ∷ [])) (inputs es))
            (fan_in_run-Holds es (chs ++ inputs (e ∷ [])) g k))

  Moves-all : (sent : List T) (r : Routine T) → Moves sent r → r.is_done ≡ true → sent ≡ r.channel
  Moves-all sent r m d =
      let (e, q) = m.at_end d in let o = rw (e, q) at m.order in sym (append-nil sent) ∙ o

  all_done-channel :
      (rs : List (Routine T)) (i : ℕ) (sent : List T)
      → all_done rs ≡ true
      → Tracks sent (get_elem? rs i)
      → sent ≡ get_or (channels rs) i []
  unfolding all_done
  all_done-channel [] i sent d h = h
  all_done-channel (r ∷ rs) zero sent d h = Moves-all sent r h (ground arith)
  all_done-channel (r ∷ rs) (suc i) sent d h = all_done-channel rs i sent (ground arith) h

  -- Whenever all goroutines of a FanIn are done, in whatever order its callers and goroutines came, the
  -- goroutine of each channel given to Input has sent exactly the values of this channel, in their order
  -- and each of them once, and no other goroutine has sent any.
  pub fan_in_run-forwards :
      (es : List (Event T)) (f : FanIn T)
      → fan_in_run es new_fan_in ≡ stepped f
      → all_done f.routines ≡ true
      → (i : ℕ) → from i f.out ≡ get_or (inputs es) i []
  unfolding new_fan_in
  fan_in_run-forwards es f e d i =
      let start : Forwards [] new_fan_in = record { given = refl; tracked = λ j. refl } in
      let run = fan_in_run-Holds es [] new_fan_in start in
      let h : Forwards (inputs es) f = rw e at run in
      all_done-channel f.routines i (from i f.out) d (h.tracked i)
      ∙ ap (λ cs. get_or cs i []) h.given
