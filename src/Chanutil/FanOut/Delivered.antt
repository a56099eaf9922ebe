-- ===== src/Chanutil/FanOut/Delivered.antt =====
-- What a FanOut of chanutil/chainutil.go sends to each of its outputs.
use go_utils.Chanutil.FanOut.{
  Output, FanOut, Event, output, close, value, input_closes, close_output, send_output, send_all,
  close_all, close_at, fan_out_step, fan_out_run,
}
use go_utils.Prelude.{
  ℕ, zero, suc, ◌≡◌, refl, sym, ap, ◌∙◌, inl, inr, Bool, true, false, ◌&&◌, not, some, List, [],
  ◌∷◌, ◌++◌, append-nil, append_assoc, arith, nat_beq, if◌then◌else◌, Bool-cases, length, get_elem?,
}

module _ {T : Type 0} where
  -- The values of the input that come before it or output `i` is closed.
  abbrev pub values_until : ℕ → List (Event T) → List T
  values_until i [] = []
  values_until i (output ∷ es) = values_until i es
  values_until i (close j ∷ es) = let rest = values_until i es in if nat_beq j i then [] else rest
  values_until i (value v ∷ es) = v ∷ values_until i es
  values_until i (input_closes ∷ es) = []

  abbrev pub stays_open : ℕ → List (Event T) → Bool
  stays_open i [] = true
  stays_open i (output ∷ es) = stays_open i es
  stays_open i (close j ∷ es) = not (nat_beq j i) && stays_open i es
  stays_open i (value v ∷ es) = stays_open i es
  stays_open i (input_closes ∷ es) = false

  -- Output `i` after some events.
  abbrev pub output_after : ℕ → List (Event T) → Output T → Output T
  output_after i es o =
      if o.is_open
      then record { got = o.got ++ values_until i es; is_open = stays_open i es }
      else o

  get_elem?-append :
      (os : List (Output T)) (p o : Output T) (i : ℕ)
      → get_elem? os i ≡ some o
      → get_elem? (os ++ p ∷ []) i ≡ some o
  get_elem?-append [] p o i g = cc
  get_elem?-append (q ∷ os) p o zero g = g
  get_elem?-append (q ∷ os) p o (suc i) g = get_elem?-append os p o i g

  get_elem?-last :
      (os : List (Output T)) (p : Output T) → get_elem? (os ++ p ∷ []) (length os) ≡ some p
  get_elem?-last [] p = refl
  get_elem?-last (q ∷ os) p = get_elem?-last os p

  get_elem?-close_at :
      (os : List (Output T)) (o : Output T) (i j : ℕ)
      → get_elem? os i ≡ some o
      → get_elem? (close_at j os) i ≡ some (if nat_beq j i then close_output o else o)
  unfolding close_at
  get_elem?-close_at [] o i j g = cc
  get_elem?-close_at (q ∷ os) o zero zero g =
      let same : q ≡ o = cc in ap (λ x. some (close_output x)) same
  get_elem?-close_at (q ∷ os) o zero (suc j) g = g ∙ ground arith
  get_elem?-close_at (q ∷ os) o (suc i) zero g = g ∙ ground arith
  get_elem?-close_at (q ∷ os) o (suc i) (suc j) g = get_elem?-close_at os o i j g ∙ ground arith

  get_elem?-send_all :
      (v : T) (os : List (Output T)) (o : Output T) (i : ℕ)
      → get_elem? os i ≡ some o
      → get_elem? (send_all v os) i ≡ some (send_output v o)
  unfolding send_all
  get_elem?-send_all v [] o i g = cc
  get_elem?-send_all v (q ∷ os) o zero g =
      let same : q ≡ o = cc in ap (λ x. some (send_output v x)) same
  get_elem?-send_all v (q ∷ os) o (suc i) g = get_elem?-send_all v os o i g

  get_elem?-close_all :
      (os : List (Output T)) (o : Output T) (i : ℕ)
      → get_elem? os i ≡ some o
      → get_elem? (close_all os) i ≡ some (close_output o)
  unfolding close_all
  get_elem?-close_all [] o i g = cc
  get_elem?-close_all (q ∷ os) o zero g =
      let same : q ≡ o = cc in ap (λ x. some (close_output x)) same
  get_elem?-close_all (q ∷ os) o (suc i) g = get_elem?-close_all os o i g

  send_output_closed : (v : T) (o : Output T) → o.is_open ≡ false → send_output v o ≡ o
  unfolding send_output
  send_output_closed v o k = rw k refl

  -- Output `i` after one event, when there still is an input.
  abbrev output_step : ℕ → Event T → Output T → Output T
  output_step i output o = o
  output_step i (close j) o = if nat_beq j i then close_output o else o
  output_step i (value v) o = send_output v o
  output_step i input_closes o = close_output o

  -- An open output has an input.
  abbrev HasInput : FanOut T → Output T → Type 0
  HasInput f o = o.is_open ≡ true → f.has_input ≡ true

  fan_out_step-output :
      (e : Event T) (f : FanOut T) (o : Output T) (i : ℕ)
      → get_elem? f.outputs i ≡ some o
      → HasInput f o
      → (get_elem? (fan_out_step e f).outputs i ≡ some (output_step i e o))
        × HasInput (fan_out_step e f) (output_step i e o)
  unfolding fan_out_step close_output send_output
  fan_out_step-output output f o i g h = (get_elem?-append f.outputs _ o i g, h)
  fan_out_step-output (close j) f o i g h = (
    get_elem?-close_at f.outputs o i j g,
    elim (Bool-cases (nat_beq j i)) [ inl c ↦ rw c (λ k. cc) | inr c ↦ rw c h ],
  )
  fan_out_step-output (value v) f o i g h = elim (Bool-cases f.has_input) [
    | inl c ↦ rw (c, fan_out_step) (get_elem?-send_all v f.outputs o i g, λ k. refl)
    | inr c ↦ elim (Bool-cases o.is_open) [
      | inl k ↦ let no = h k in absurd (cc)
      | inr k ↦
          let same = send_output_closed v o k in
          rw (c, fan_out_step)
            (g ∙ ap some (sym same), λ q. let r : o.is_open ≡ true = rw same at q in absurd (cc))
    ]
  ]
  fan_out_step-output input_closes f o i g h = (get_elem?-close_all f.outputs o i g, λ k. cc)

  output_after-cons :
      (e : Event T) (es : List (Event T)) (o : Output T) (i : ℕ)
      → output_after i (e ∷ es) o ≡ output_after i es (output_step i e o)
  unfolding close_output send_output
  output_after-cons output es o i = refl
  output_after-cons (close j) es o i = elim (Bool-cases (nat_beq j i)) [
    | inl c ↦ elim (Bool-cases o.is_open) [
      | inl k ↦ rw (c, k) (ap (λ vs. record { got = vs; is_open = false }) (append-nil o.got))
      | inr k ↦ rw (c, k) refl
    ]
    | inr c ↦ rw c refl
  ]
  output_after-cons (value v) es o i = elim (Bool-cases o.is_open) [
    | inl k ↦ rw k (
        ap (λ vs. record { got = vs; is_open = stays_open i es })
          (sym (append_assoc o.got (v ∷ []) (values_until i es))))
    | inr k ↦ rw k refl
  ]
  output_after-cons input_closes es o i = elim (Bool-cases o.is_open) [
    | inl k ↦ rw k (ap (λ vs. record { got = vs; is_open = false }) (append-nil o.got))
    | inr k ↦ rw k refl
  ]

  output_after-nil : (i : ℕ) (o : Output T) → output_after i [] o ≡ o
  output_after-nil i o = elim (Bool-cases o.is_open) [
    | inl k ↦ rw k (ap (λ vs. record { got = vs; is_open = true }) (append-nil o.got))
    | inr k ↦ rw k refl
  ]

  fan_out_run-delivers :
      (es : List (Event T)) (f : FanOut T) (o : Output T) (i : ℕ)
      → get_elem? f.outputs i ≡ some o
      → HasInput f o
      → get_elem? (fan_out_run es f).outputs i ≡ some (output_after i es o)
  unfolding fan_out_run
  fan_out_run-delivers [] f o i g h = g ∙ ap some (sym (output_after-nil i o))
  fan_out_run-delivers (e ∷ es) f o i g h =
      let (k, l) = fan_out_step-output e f o i g h in
      fan_out_run-delivers es (fan_out_step e f) (output_step i e o) i k l
      ∙ ap some (sym (output_after-cons e es o i))

  -- Whatever comes after a call of Output while there is an input, the new output is given exactly the values
  -- of the input that come before the input or this output is closed, in their order, and it stays open
  -- exactly until then.
  pub fan_out_run-output :
      (es : List (Event T)) (f : FanOut T)
      → f.has_input ≡ true
      → get_elem? (fan_out_run (output ∷ es) f).outputs (length f.outputs)
        ≡ some (record {
          got = values_until (length f.outputs) es;
          is_open = stays_open (length f.outputs) es;
        })
  unfolding fan_out_run
  fan_out_run-output es f h =
      fan_out_run-delivers es (fan_out_step output f) (record { got = []; is_open = true })
        (length f.outputs)
        (get_elem?-last f.outputs _ ∙ ap (λ b. some (record { got = []; is_open = b })) h)
        (unfold fan_out_step in λ k. h)
