-- ===== src/Interpolate/RoundTrip.antt =====
-- The parser of interpolate/interpolate.go on one printed part.
use go_utils.Prelude.{
  ℕ, ◌≡◌, refl, inl, inr, Bool, true, false, [], ◌∷◌, ◌++◌, append-nil, append_assoc, arith,
  Bool-cases, Bytes,
}
use go_utils.Interpolate.{
  Parser, Variable, tokens, is_any_of, parse_default, variable_loop, parse_variable, parse_loop,
  append_variable,
}
use go_utils.Interpolate.Print.{escape, print_default, IsVariable}
use go_utils.Interpolate.Reading.{
  default_escaped, default_end, default_plain, variable_escaped, variable_default, variable_end,
  variable_plain, loop_escaped, loop_plain,
}

module _ (sigil : ℕ) where
  default_text :
      (x tail : Bytes) (p : Parser)
      → p.rest ≡ escape (b'}' ∷ b'\\' ∷ []) x ++ b'}' ∷ tail
      → parse_default (tokens sigil) p ≡ record p { rest = b'}' ∷ tail; def_buf = p.def_buf ++ x }
  unfolding escape
  default_text [] tail p e = ground (arith, default_end sigil p tail e, append-nil p.def_buf)
  default_text (c ∷ x) tail p e = elim (Bool-cases (is_any_of (b'}' ∷ b'\\' ∷ []) c)) [
    | inl h ↦
        rw (default_escaped sigil p c (escape (b'}' ∷ b'\\' ∷ []) x ++ b'}' ∷ tail) (rw h at e)) (
          rw (
            default_text x tail
                (record p {
                  rest = escape (b'}' ∷ b'\\' ∷ []) x ++ b'}' ∷ tail;
                  def_buf = p.def_buf ++ c ∷ [];
                })
                refl,
            append_assoc,
          ))
    | inr h ↦
        rw (default_plain sigil p c (escape (b'}' ∷ b'\\' ∷ []) x ++ b'}' ∷ tail) (rw h at e) h) (
          rw (
            default_text x tail
                (record p {
                  rest = escape (b'}' ∷ b'\\' ∷ []) x ++ b'}' ∷ tail;
                  def_buf = p.def_buf ++ c ∷ [];
                })
                refl,
            append_assoc,
          ))
  ]

  variable_text :
      (def : Bool) (x tail : Bytes) (p : Parser)
      → p.rest ≡ escape (b'}' ∷ b'-' ∷ b'\\' ∷ []) x ++ tail
      → variable_loop (tokens sigil) (record { def = def; parser = p })
        ≡ variable_loop
            (tokens sigil)
            (record { def = def; parser = record p { rest = tail; var_buf = p.var_buf ++ x } })
  unfolding escape
  variable_text def [] tail p e = rw append-nil (rw (← e))
  variable_text def (c ∷ x) tail p e = elim (Bool-cases (is_any_of (b'}' ∷ b'-' ∷ b'\\' ∷ []) c)) [
    | inl h ↦
        rw
          (variable_escaped sigil def p c (escape (b'}' ∷ b'-' ∷ b'\\' ∷ []) x ++ tail) (rw h at e))
          (rw (
            variable_text def x tail
                (record p {
                  rest = escape (b'}' ∷ b'-' ∷ b'\\' ∷ []) x ++ tail;
                  var_buf = p.var_buf ++ c ∷ [];
                })
                refl,
            append_assoc,
          ))
    | inr h ↦
        rw
          (variable_plain sigil def p c (escape (b'}' ∷ b'-' ∷ b'\\' ∷ []) x ++ tail) (rw h at e) h)
          (rw (
            variable_text def x tail
                (record p {
                  rest = escape (b'}' ∷ b'-' ∷ b'\\' ∷ []) x ++ tail;
                  var_buf = p.var_buf ++ c ∷ [];
                })
                refl,
            append_assoc,
          ))
  ]

  pub loop_text :
      (x tail : Bytes) (p : Parser)
      → p.rest ≡ escape (sigil ∷ b'\\' ∷ []) x ++ tail
      → parse_loop (tokens sigil) p
        ≡ parse_loop (tokens sigil) (record p { rest = tail; lit_buf = p.lit_buf ++ x })
  unfolding escape
  loop_text [] tail p e = rw append-nil (rw (← e))
  loop_text (c ∷ x) tail p e = elim (Bool-cases (is_any_of (sigil ∷ b'\\' ∷ []) c)) [
    | inl h ↦ rw (loop_escaped sigil p c (escape (sigil ∷ b'\\' ∷ []) x ++ tail) (rw h at e)) (
        rw (
          loop_text x tail
              (record p {
                rest = escape (sigil ∷ b'\\' ∷ []) x ++ tail;
                lit_buf = p.lit_buf ++ c ∷ [];
              })
              refl,
          append_assoc,
        ))
    | inr h ↦ rw (loop_plain sigil p c (escape (sigil ∷ b'\\' ∷ []) x ++ tail) (rw h at e) h) (
        rw (
          loop_text x tail
              (record p {
                rest = escape (sigil ∷ b'\\' ∷ []) x ++ tail;
                lit_buf = p.lit_buf ++ c ∷ [];
              })
              refl,
          append_assoc,
        ))
  ]

  -- The loop on a printed variable with a default, and on one with none.
  loop_with_default :
      (name default tail : Bytes) (p : Parser)
      → p.rest
        ≡ escape (b'}' ∷ b'-' ∷ b'\\' ∷ []) name
          ++ b'-' ∷ (escape (b'}' ∷ b'\\' ∷ []) default ++ b'}' ∷ tail)
      → p.var_buf ≡ []
      → p.def_buf ≡ []
      → variable_loop (tokens sigil) (record { def = false; parser = p }) ≡ record {
        closed = true;
        parser =
            append_variable
              (record { name = name; default = default; has_default = true })
              (record p { rest = tail; var_buf = name; def_buf = default });
      }
  loop_with_default name default tail p e ev ed =
      let text : Bytes = escape (b'}' ∷ b'\\' ∷ []) default ++ b'}' ∷ tail in
      let named : Parser = record p { rest = b'-' ∷ text; var_buf = p.var_buf ++ name } in
      let inner : Parser = record p { rest = text; var_buf = p.var_buf ++ name } in
      let full : Parser = record inner { rest = b'}' ∷ tail; def_buf = p.def_buf ++ default } in
      cc (
        variable_text false name (b'-' ∷ text) p e,
        variable_default sigil false named text refl,
        default_text default tail inner refl,
        variable_end sigil true full tail refl,
      )

  loop_without_default :
      (name tail : Bytes) (p : Parser)
      → p.rest ≡ escape (b'}' ∷ b'-' ∷ b'\\' ∷ []) name ++ b'}' ∷ tail
      → p.var_buf ≡ []
      → p.def_buf ≡ []
      → variable_loop (tokens sigil) (record { def = false; parser = p }) ≡ record {
        closed = true;
        parser =
            append_variable
              (record { name = name; default = []; has_default = false })
              (record p { rest = tail; var_buf = name; def_buf = [] });
      }
  loop_without_default name tail p e ev ed =
      let q : Parser = record p { rest = b'}' ∷ tail; var_buf = p.var_buf ++ name } in
      cc (variable_text false name (b'}' ∷ tail) p e, variable_end sigil false q tail refl)

  -- A printed variable, behind its opening token, is parsed to itself.
  pub variable_printed :
      (v : Variable) (tail : Bytes) (p : Parser)
      → IsVariable v
      → p.rest ≡ escape (b'}' ∷ b'-' ∷ b'\\' ∷ []) v.name ++ (print_default v ++ b'}' ∷ tail)
      → parse_variable (tokens sigil) p
        ≡ append_variable v (record p { rest = tail; var_buf = v.name; def_buf = v.default })
  unfolding parse_variable print_default
  variable_printed v tail p ok e = elim (Bool-cases v.has_default) [
    | inl h ↦
        ground
          (arith, loop_with_default v.name v.default tail (record p { var_buf = []; def_buf = [] }))
    | inr h ↦
        ground (arith, loop_without_default v.name tail (record p { var_buf = []; def_buf = [] }))
  ]
