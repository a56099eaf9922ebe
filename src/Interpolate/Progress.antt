-- ===== src/Interpolate/Progress.antt =====
-- The measure of the parser's loops in interpolate/interpolate.go: the text that is still unread.
use go_utils.Prelude.Rounds.{stop, run_inv, Falls}
use go_utils.Prelude.{ℕ, ◌≤◌, ◌<◌, ◌≡◌, refl, false, [], ◌∷◌, arith, length, Bytes}
use go_utils.Interpolate.{
  Parser, tokens, unread, span_until, next_bytes_until, next_token, default_round, parse_default,
  VariableState, VariableEnd, variable_round, variable_loop, parse_variable, parse_backslash,
  parse_round, append_variable, append_buffer, strip_prefix,
}

pub length-span_until : (stops s : Bytes) → length (span_until stops s).1 ≤ length s
unfolding span_until
length-span_until stops [] = omega arith
length-span_until stops (c ∷ s) = ground (arith, length-span_until stops s)

pub unread-append_buffer : (p : Parser) → (append_buffer p).rest ≡ p.rest
unfolding append_buffer
unread-append_buffer p = ground arith

module _ (sigil : ℕ) where
  pub default_round-Falls : Falls (default_round (tokens sigil)) unread
  unfolding default_round next_token next_bytes_until strip_prefix
  default_round-Falls s t e = go s.rest refl
    where
      go : (r : Bytes) → s.rest ≡ r → length t.rest < length s.rest
      go [] h = ground arith
      go (c ∷ []) h = ground (arith, length-span_until (b'}' ∷ b'\\' ∷ []) [])
      go (c ∷ d ∷ r) h = ground (arith, length-span_until (b'}' ∷ b'\\' ∷ []) (d ∷ r))

  unread-parse_default : (p : Parser) → unread (parse_default (tokens sigil) p) ≤ unread p
  unfolding parse_default
  unread-parse_default p =
      run_inv (default_round (tokens sigil)) (λ q. q) unread (λ q. unread q ≤ unread p)
        (λ q. unread q ≤ unread p) default_round-Falls
        (λ s t h e. omega (arith, default_round-Falls s t e)) ends p (omega arith)
    where
      ends :
          (s q : Parser)
          → unread s ≤ unread p
          → default_round (tokens sigil) s ≡ stop q
          → unread q ≤ unread p
      ends s q h e = unfold default_round next_token strip_prefix in go s.rest refl
        where
          go : (r : Bytes) → s.rest ≡ r → length q.rest ≤ length p.rest
          go [] k = ground arith
          go (c ∷ []) k = ground arith
          go (c ∷ d ∷ r) k = ground arith

  pub variable_round-Falls : Falls (variable_round (tokens sigil)) (λ st. unread st.parser)
  unfolding variable_round next_token next_bytes_until strip_prefix
  variable_round-Falls s t e = go s.parser.rest refl
    where
      go : (r : Bytes) → s.parser.rest ≡ r → length t.parser.rest < length s.parser.rest
      go [] h = ground arith
      go (c ∷ []) h = ground (
        arith,
        length-span_until (b'}' ∷ b'-' ∷ b'\\' ∷ []) [],
        unread-parse_default (record (s.parser) { rest = [] }),
      )
      go (c ∷ d ∷ r) h = ground (
        arith,
        length-span_until (b'}' ∷ b'-' ∷ b'\\' ∷ []) (d ∷ r),
        unread-parse_default (record (s.parser) { rest = d ∷ r }),
      )

  unread-variable_loop :
      (st : VariableState) → unread (variable_loop (tokens sigil) st).parser ≤ unread st.parser
  unfolding variable_loop
  unread-variable_loop st =
      run_inv (variable_round (tokens sigil)) _ (λ s. unread s.parser)
        (λ s. unread s.parser ≤ unread st.parser) (λ q. unread q.parser ≤ unread st.parser)
        variable_round-Falls (λ s t h e. omega (arith, variable_round-Falls s t e)) ends st
        (omega arith)
    where
      ends :
          (s : VariableState) (q : VariableEnd)
          → unread s.parser ≤ unread st.parser
          → variable_round (tokens sigil) s ≡ stop q
          → unread q.parser ≤ unread st.parser
      ends s q h e =
          unfold variable_round next_token strip_prefix append_variable append_buffer in
          go s.parser.rest refl
        where
          go : (r : Bytes) → s.parser.rest ≡ r → length q.parser.rest ≤ length st.parser.rest
          go [] k = ground arith
          go (c ∷ []) k = ground arith
          go (c ∷ d ∷ r) k = ground arith

  unread-parse_variable : (p : Parser) → unread (parse_variable (tokens sigil) p) ≤ unread p
  unfolding parse_variable
  unread-parse_variable p = ground (
    arith,
    unread-variable_loop (record { def = false; parser = record p { var_buf = []; def_buf = [] } }),
  )

  pub parse_round-Falls : Falls (parse_round (tokens sigil)) unread
  unfolding parse_round next_token next_bytes_until strip_prefix parse_backslash
  parse_round-Falls s t e = go s.rest refl
    where
      go : (r : Bytes) → s.rest ≡ r → length t.rest < length s.rest
      go [] h = ground arith
      go (c ∷ []) h = ground (arith, length-span_until (sigil ∷ b'\\' ∷ []) [])
      go (c ∷ d ∷ r) h = ground (
        arith,
        length-span_until (sigil ∷ b'\\' ∷ []) (d ∷ r),
        unread-parse_variable (record s { rest = r }),
      )
