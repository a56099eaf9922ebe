-- ===== src/Interpolate/Whole.antt =====
-- Parse and ParsePercent of interpolate/interpolate.go on whole texts.
use mathlib.Core.Path.{subst}
use go_utils.Prelude.{
  ℕ, ◌≡◌, refl, sym, ap, ◌∙◌, ◌≢◌, [], ◌∷◌, ◌++◌, append-nil, append_assoc, arith, Bytes,
}
use go_utils.Interpolate.{
  Parser, Parsed, Variable, literal, variable, tokens, parse, parse_percent, run_parser, parse_loop,
  append_variable, append_buffer,
}
use go_utils.Interpolate.Print.{escape, print_default, print_variable, print, IsNormal}
use go_utils.Interpolate.Reading.{loop_end, loop_variable}
use go_utils.Interpolate.RoundTrip.{loop_text, variable_printed}

-- The parts that a buffer and later parts make.
flush : Bytes → Parsed → Parsed
flush [] ps = ps
flush (c ∷ s) ps = literal (c ∷ s) ∷ ps

-- No literal follows a buffer that is not empty.
abbrev Fits : Bytes → Parsed → Type 0
Fits buf [] = Unit
Fits buf (literal s ∷ ps) = buf ≡ []
Fits buf (variable v ∷ ps) = Unit

out-append_buffer : (p : Parser) → (append_buffer p).out ≡ p.out ++ flush p.lit_buf []
unfolding append_buffer flush
out-append_buffer p = go p.lit_buf refl
  where
    go : (buf : Bytes) → p.lit_buf ≡ buf → (append_buffer p).out ≡ p.out ++ flush p.lit_buf []
    go [] e = ground (arith, append-nil p.out)
    go (c ∷ s) e = ground arith

lit_buf-append_buffer : (p : Parser) → (append_buffer p).lit_buf ≡ []
unfolding append_buffer
lit_buf-append_buffer p = ground arith

flush-append : (buf : Bytes) (ps : Parsed) → flush buf [] ++ ps ≡ flush buf ps
unfolding flush
flush-append [] ps = refl
flush-append (c ∷ s) ps = refl

flush_ne : (s : Bytes) (ps : Parsed) → s ≢ [] → flush s ps ≡ literal s ∷ ps
unfolding flush
flush_ne [] ps h = absurd (h refl)
flush_ne (c ∷ s) ps h = refl

Fits-nil : (ps : Parsed) → Fits [] ps
Fits-nil [] = tt
Fits-nil (literal s ∷ ps) = refl
Fits-nil (variable v ∷ ps) = tt

IsNormal-literal :
    (s : Bytes) (ps : Parsed) → IsNormal (literal s ∷ ps) → (s ≢ []) × IsNormal ps × Fits s ps
IsNormal-literal s [] n = (n.0, n.1, tt)
IsNormal-literal s (literal t ∷ ps) n = absurd n
IsNormal-literal s (variable v ∷ ps) n = (n.0, n.1, tt)

module _ (v : Variable) (p : Parser) where
  rest-append_variable : (append_variable v p).rest ≡ p.rest
  unfolding append_variable append_buffer
  rest-append_variable = ground arith

  lit_buf-append_variable : (append_variable v p).lit_buf ≡ []
  unfolding append_variable
  lit_buf-append_variable = lit_buf-append_buffer p

  out-append_variable :
      (ps : Parsed)
      → (append_variable v p).out ++ flush (append_variable v p).lit_buf ps
        ≡ p.out ++ flush p.lit_buf (variable v ∷ ps)
  unfolding append_variable flush
  out-append_variable ps =
      rw (lit_buf-append_buffer p, out-append_buffer p)
        (simp append_assoc
          (ap (λ (l : Parsed). p.out ++ l) (flush-append p.lit_buf (variable v ∷ ps))))

module _ (sigil : ℕ) (ne : sigil ≢ b'\\') where
  loop_print :
      (ps : Parsed) (p : Parser)
      → p.rest ≡ print sigil ps
      → IsNormal ps
      → Fits p.lit_buf ps
      → (append_buffer (parse_loop (tokens sigil) p)).out ≡ p.out ++ flush p.lit_buf ps
  unfolding print print_variable flush
  loop_print [] p e n f = rw (loop_end sigil p e) (out-append_buffer p)
  loop_print (literal s ∷ ps) p e n f =
      let (full, normal, fits) = IsNormal-literal s ps n in
      rw (loop_text sigil s (print sigil ps) p e) (
        rw f (
          loop_print ps (record p { rest = print sigil ps; lit_buf = s }) refl normal fits
          ∙ ap (λ (l : Parsed). p.out ++ l) (flush_ne s ps full)))
  loop_print (variable v ∷ ps) p e n f =
      let r : Bytes =
        escape (b'}' ∷ b'-' ∷ b'\\' ∷ []) v.name ++ (print_default v ++ b'}' ∷ print sigil ps) in
      let q : Parser = record p { rest = print sigil ps; var_buf = v.name; def_buf = v.default } in
      rw (loop_variable sigil p r ne (e ∙ simp append_assoc)) (
        rw (variable_printed sigil v (print sigil ps) (record p { rest = r }) n.0 refl) (
          loop_print ps (append_variable v q) (rest-append_variable v q) n.1
            (subst (λ (b : Bytes). Fits b ps) (sym (lit_buf-append_variable v q)) (Fits-nil ps))
          ∙ out-append_variable v q ps))

  run_parser-print : (ps : Parsed) → IsNormal ps → run_parser (tokens sigil) (print sigil ps) ≡ ps
  unfolding run_parser flush
  run_parser-print ps n =
      loop_print ps
        (record { rest = print sigil ps; out = []; lit_buf = []; var_buf = []; def_buf = [] }) refl
        n (Fits-nil ps)

-- A text in the syntax of `Parse`, with every special byte escaped, is parsed to the parts that it
-- was printed from.
pub parse-print : (ps : Parsed) → IsNormal ps → parse (print b'$' ps) ≡ ps
unfolding parse
parse-print ps n = run_parser-print b'$' (omega arith) ps n

-- A text in the syntax of `ParsePercent`, with every special byte escaped, is parsed to the parts that
-- it was printed from.
pub parse_percent-print : (ps : Parsed) → IsNormal ps → parse_percent (print b'%' ps) ≡ ps
unfolding parse_percent
parse_percent-print ps n = run_parser-print b'%' (omega arith) ps n
