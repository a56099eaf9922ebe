-- ===== src/Interpolate/Reading.antt =====
-- The rounds of the parser's loops in interpolate/interpolate.go, byte by byte.
use go_utils.Prelude.Rounds.{run_lem}
use go_utils.Prelude.{
  ℕ, ◌≡◌, refl, ◌≢◌, inl, inr, Bool, true, false, [], ◌∷◌, ◌++◌, append_assoc, arith, Bool-cases,
  Bytes,
}
use go_utils.Interpolate.{
  Parser, tokens, span_until, next_bytes_until, next_token, is_any_of, default_round, parse_default,
  variable_round, variable_loop, parse_variable, parse_backslash, parse_round, parse_loop,
  append_variable, strip_prefix,
}
use go_utils.Interpolate.Progress.{default_round-Falls, variable_round-Falls, parse_round-Falls}

-- A plain byte: the parser reads it, and the bytes up to the next stop, into a buffer.
abbrev pub IsPlain : Bytes → ℕ → Type 0
IsPlain stops c = is_any_of stops c ≡ false

module _ (sigil : ℕ) (p : Parser) where
  pub default_escaped :
      (b : ℕ) (r : Bytes)
      → p.rest ≡ b'\\' ∷ b ∷ r
      → parse_default (tokens sigil) p
        ≡ parse_default (tokens sigil) (record p { rest = r; def_buf = p.def_buf ++ b ∷ [] })
  unfolding parse_default
  default_escaped b r e =
      rw (run_lem _ _ _ (default_round-Falls sigil))
        (unfold default_round next_token strip_prefix in rw e)

  pub default_end : (r : Bytes) → p.rest ≡ b'}' ∷ r → parse_default (tokens sigil) p ≡ p
  unfolding parse_default
  default_end r e =
      rw (run_lem _ _ _ (default_round-Falls sigil))
        (unfold default_round next_token strip_prefix in rw e)

  default_run :
      (c : ℕ) (s : Bytes)
      → p.rest ≡ c ∷ s
      → IsPlain (b'}' ∷ b'\\' ∷ []) c
      → parse_default (tokens sigil) p
        ≡ parse_default (tokens sigil) (record p {
          rest = (span_until (b'}' ∷ b'\\' ∷ []) s).1;
          def_buf = p.def_buf ++ c ∷ (span_until (b'}' ∷ b'\\' ∷ []) s).0;
        })
  unfolding parse_default
  default_run c s e h =
      rw (run_lem _ _ _ (default_round-Falls sigil))
        (unfold default_round next_token strip_prefix next_bytes_until in ground arith)

module _ (sigil : ℕ) where
  pub default_plain :
      (p : Parser) (c : ℕ) (s : Bytes)
      → p.rest ≡ c ∷ s
      → IsPlain (b'}' ∷ b'\\' ∷ []) c
      → parse_default (tokens sigil) p
        ≡ parse_default (tokens sigil) (record p { rest = s; def_buf = p.def_buf ++ c ∷ [] })
  default_plain p c [] e h = rw (default_run sigil p c [] e h) (unfold span_until in refl)
  default_plain p c (d ∷ s) e h = elim (Bool-cases (is_any_of (b'}' ∷ b'\\' ∷ []) d)) [
    | inl stops ↦ rw (default_run sigil p c (d ∷ s) e h) (unfold span_until in rw stops)
    | inr plain ↦
        rw
          (
            default_run sigil p c (d ∷ s) e h,
            default_run sigil (record p { rest = d ∷ s; def_buf = p.def_buf ++ c ∷ [] }) d s refl
                plain,
          )
          (unfold span_until in rw (plain, append_assoc))
  ]

module _ (sigil : ℕ) (def : Bool) (p : Parser) where
  pub variable_escaped :
      (b : ℕ) (r : Bytes)
      → p.rest ≡ b'\\' ∷ b ∷ r
      → variable_loop (tokens sigil) (record { def = def; parser = p })
        ≡ variable_loop
            (tokens sigil)
            (record { def = def; parser = record p { rest = r; var_buf = p.var_buf ++ b ∷ [] } })
  unfolding variable_loop
  variable_escaped b r e =
      rw (run_lem _ _ _ (variable_round-Falls sigil))
        (unfold variable_round next_token strip_prefix in ground arith)

  pub variable_default :
      (r : Bytes)
      → p.rest ≡ b'-' ∷ r
      → variable_loop (tokens sigil) (record { def = def; parser = p })
        ≡ variable_loop
            (tokens sigil)
            (record { def = true; parser = parse_default (tokens sigil) (record p { rest = r }) })
  unfolding variable_loop
  variable_default r e =
      rw (run_lem _ _ _ (variable_round-Falls sigil))
        (unfold variable_round next_token strip_prefix in ground arith)

  pub variable_end :
      (r : Bytes)
      → p.rest ≡ b'}' ∷ r
      → variable_loop (tokens sigil) (record { def = def; parser = p }) ≡ record {
        closed = true;
        parser =
            append_variable
              (record { name = p.var_buf; default = p.def_buf; has_default = def })
              (record p { rest = r });
      }
  unfolding variable_loop
  variable_end r e =
      rw (run_lem _ _ _ (variable_round-Falls sigil))
        (unfold variable_round next_token strip_prefix in ground arith)

  variable_run :
      (c : ℕ) (s : Bytes)
      → p.rest ≡ c ∷ s
      → IsPlain (b'}' ∷ b'-' ∷ b'\\' ∷ []) c
      → variable_loop (tokens sigil) (record { def = def; parser = p })
        ≡ variable_loop (tokens sigil) (record {
          def = def;
          parser = record p {
            rest = (span_until (b'}' ∷ b'-' ∷ b'\\' ∷ []) s).1;
            var_buf = p.var_buf ++ c ∷ (span_until (b'}' ∷ b'-' ∷ b'\\' ∷ []) s).0;
          };
        })
  unfolding variable_loop
  variable_run c s e h =
      rw (run_lem _ _ _ (variable_round-Falls sigil))
        (unfold variable_round next_token strip_prefix next_bytes_until in ground arith)

module _ (sigil : ℕ) (def : Bool) where
  pub variable_plain :
      (p : Parser) (c : ℕ) (s : Bytes)
      → p.rest ≡ c ∷ s
      → IsPlain (b'}' ∷ b'-' ∷ b'\\' ∷ []) c
      → variable_loop (tokens sigil) (record { def = def; parser = p })
        ≡ variable_loop
            (tokens sigil)
            (record { def = def; parser = record p { rest = s; var_buf = p.var_buf ++ c ∷ [] } })
  variable_plain p c [] e h = rw (variable_run sigil def p c [] e h) (unfold span_until in refl)
  variable_plain p c (d ∷ s) e h = elim (Bool-cases (is_any_of (b'}' ∷ b'-' ∷ b'\\' ∷ []) d)) [
    | inl stops ↦ rw (variable_run sigil def p c (d ∷ s) e h) (unfold span_until in rw stops)
    | inr plain ↦
        rw
          (
            variable_run sigil def p c (d ∷ s) e h,
            variable_run sigil def (record p { rest = d ∷ s; var_buf = p.var_buf ++ c ∷ [] }) d s
                refl plain,
          )
          (unfold span_until in rw (plain, append_assoc))
  ]

module _ (sigil : ℕ) (p : Parser) where
  pub loop_end : p.rest ≡ [] → parse_loop (tokens sigil) p ≡ p
  unfolding parse_loop
  loop_end e = rw (run_lem _ _ _ (parse_round-Falls sigil)) (unfold parse_round in rw e)

  pub loop_escaped :
      (b : ℕ) (r : Bytes)
      → p.rest ≡ b'\\' ∷ b ∷ r
      → parse_loop (tokens sigil) p
        ≡ parse_loop (tokens sigil) (record p { rest = r; lit_buf = p.lit_buf ++ b ∷ [] })
  unfolding parse_loop
  loop_escaped b r e =
      rw (run_lem _ _ _ (parse_round-Falls sigil))
        (unfold parse_round next_token strip_prefix parse_backslash in rw e)

  pub loop_variable :
      (r : Bytes)
      → sigil ≢ b'\\'
      → p.rest ≡ sigil ∷ b'{' ∷ r
      → parse_loop (tokens sigil) p
        ≡ parse_loop (tokens sigil) (parse_variable (tokens sigil) (record p { rest = r }))
  unfolding parse_loop
  loop_variable r ne e =
      rw (run_lem _ _ _ (parse_round-Falls sigil))
        (unfold parse_round next_token strip_prefix in ground arith)

  loop_run :
      (c : ℕ) (s : Bytes)
      → p.rest ≡ c ∷ s
      → IsPlain (sigil ∷ b'\\' ∷ []) c
      → parse_loop (tokens sigil) p
        ≡ parse_loop (tokens sigil) (record p {
          rest = (span_until (sigil ∷ b'\\' ∷ []) s).1;
          lit_buf = p.lit_buf ++ c ∷ (span_until (sigil ∷ b'\\' ∷ []) s).0;
        })
  unfolding parse_loop
  loop_run c s e h =
      rw (run_lem _ _ _ (parse_round-Falls sigil))
        (unfold parse_round next_token strip_prefix next_bytes_until in ground arith)

module _ (sigil : ℕ) where
  pub loop_plain :
      (p : Parser) (c : ℕ) (s : Bytes)
      → p.rest ≡ c ∷ s
      → IsPlain (sigil ∷ b'\\' ∷ []) c
      → parse_loop (tokens sigil) p
        ≡ parse_loop (tokens sigil) (record p { rest = s; lit_buf = p.lit_buf ++ c ∷ [] })
  loop_plain p c [] e h = rw (loop_run sigil p c [] e h) (unfold span_until in refl)
  loop_plain p c (d ∷ s) e h = elim (Bool-cases (is_any_of (sigil ∷ b'\\' ∷ []) d)) [
    | inl stops ↦ rw (loop_run sigil p c (d ∷ s) e h) (unfold span_until in rw stops)
    | inr plain ↦
        rw
          (
            loop_run sigil p c (d ∷ s) e h,
            loop_run sigil (record p { rest = d ∷ s; lit_buf = p.lit_buf ++ c ∷ [] }) d s refl
                plain,
          )
          (unfold span_until in rw (plain, append_assoc))
  ]
