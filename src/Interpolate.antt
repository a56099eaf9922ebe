-- ===== src/Interpolate.antt =====
-- interpolate/interpolate.go. Strings are lists of bytes. The parser's position is the text that is
-- still unread, `p.in[p.pos:]`: every read of the parser goes through it, and a position that the
-- parser goes back to is the unread text at that point.
pub mod Progress
pub mod Reading
pub mod Print
pub mod RoundTrip
pub mod Whole
pub mod Examples
use go_utils.Prelude.Rounds.{Round, again, stop, run}
use go_utils.Prelude.{
  ℕ, Bool, true, false, Option, none, some, List, [], ◌∷◌, ◌++◌, nat_beq, if◌then◌else◌, length,
  Bytes,
}

pub record Variable : Type 0 where
  pub name : Bytes
  pub default : Bytes
  pub has_default : Bool

-- `litType` and `varType` with the field that each uses.
pub data Part : Type 0 where
  literal : Bytes → Part
  variable : Variable → Part

abbrev pub Parsed : Type 0
Parsed = List Part

-- The four tokens of a parser.
pub record Tokens : Type 0 where
  pub backslash : Bytes
  pub var_begin : Bytes
  pub var_end : Bytes
  pub default_val : Bytes

pub record Parser : Type 0 where
  pub rest : Bytes
  pub out : Parsed
  pub lit_buf : Bytes
  pub var_buf : Bytes
  pub def_buf : Bytes

-- p.in[p.pos:] without the prefix `t`, where it has it
unfoldable pub strip_prefix : Bytes → Bytes → Option Bytes
strip_prefix [] s = some s
strip_prefix (a ∷ t) [] = none
strip_prefix (a ∷ t) (b ∷ s) = if nat_beq a b then strip_prefix t s else none

-- nextToken
unfoldable pub next_token : Bytes → Parser → Option Parser
unfolding strip_prefix
next_token t p = elim (strip_prefix t p.rest) [
  | none ↦ none
  | some r ↦ some (record p { rest = r })
]

-- t[0], of a token that is not empty
abbrev pub first : Bytes → ℕ
first [] = 0
first (c ∷ t) = c

abbrev pub is_any_of : Bytes → ℕ → Bool
is_any_of [] c = false
is_any_of (s ∷ ss) c = if nat_beq c s then true else is_any_of ss c

-- The bytes up to the first of the stops, and what follows.
unfoldable pub span_until : Bytes → Bytes → Bytes × Bytes
span_until stops [] = ([], [])
span_until stops (c ∷ s) =
    let (run_of, r) = span_until stops s in
    if is_any_of stops c then ([], c ∷ s) else (c ∷ run_of, r)

-- nextBytesUntilAnyOf: at least one byte. It is called where there is one.
unfoldable pub next_bytes_until : Bytes → Bytes → Bytes × Bytes
unfolding span_until
next_bytes_until stops [] = ([], [])
next_bytes_until stops (c ∷ s) = let (run_of, r) = span_until stops s in (c ∷ run_of, r)

-- appendBuffer
unfoldable pub append_buffer : Parser → Parser
append_buffer p = elim p.lit_buf [
  | [] ↦ p
  | c ∷ s ↦ record p { out = p.out ++ literal (c ∷ s) ∷ []; lit_buf = [] }
]

-- appendLiteral, appendByte
abbrev pub append_literal : Bytes → Parser → Parser
append_literal s p = record p { lit_buf = p.lit_buf ++ s }

unfoldable pub append_variable : Variable → Parser → Parser
unfolding append_buffer
append_variable v p = let q = append_buffer p in record q { out = q.out ++ variable v ∷ [] }

unfoldable pub parse_backslash : Tokens → Parser → Parser
parse_backslash t p = elim p.rest [
  | [] ↦ append_literal t.backslash p
  | c ∷ s ↦ append_literal (c ∷ []) (record p { rest = s })
]

-- The bytes that are still unread: every round of a loop below reads one at least.
abbrev pub unread : Parser → ℕ
unread p = length p.rest

-- A round of the loop of parseDefault, with its condition `p.hasNext()`.
unfoldable pub default_round : Tokens → Parser → Round Parser Parser
unfolding next_token next_bytes_until
default_round t p = elim p.rest [
  | [] ↦ stop p
  | c ∷ s ↦ elim (next_token t.backslash p) [
    | some q ↦ elim q.rest [
      | [] ↦ again q
      | b ∷ r ↦ again (record q { rest = r; def_buf = q.def_buf ++ b ∷ [] })
    ]
    | none ↦ elim (next_token t.var_end p) [
      | some q ↦ stop p
      | none ↦
          let (run_of, r) = next_bytes_until (first t.var_end ∷ first t.backslash ∷ []) p.rest in
          again (record p { rest = r; def_buf = p.def_buf ++ run_of })
    ]
  ]
]

unfoldable pub parse_default : Tokens → Parser → Parser
unfolding default_round
parse_default t p = run (default_round t) (λ q. q) unread p

-- The variables of the loop of parseVariable: `def` and the parser.
pub record VariableState : Type 0 where
  pub def : Bool
  pub parser : Parser

-- What that loop ends in: whether the variable was closed.
pub record VariableEnd : Type 0 where
  pub closed : Bool
  pub parser : Parser

-- A round of that loop.
unfoldable pub variable_round : Tokens → VariableState → Round VariableState VariableEnd
unfolding next_token next_bytes_until parse_default append_variable
variable_round t st =
    let p = st.parser in
    elim p.rest [
      | [] ↦ stop (record { closed = false; parser = p })
      | c ∷ s ↦ elim (next_token t.backslash p) [
        | some q ↦ elim q.rest [
          | [] ↦ again (record st { parser = q })
          | b ∷ r ↦
              again (record st { parser = record q { rest = r; var_buf = q.var_buf ++ b ∷ [] } })
        ]
        | none ↦ elim (next_token t.default_val p) [
          | some q ↦ again (record { def = true; parser = parse_default t q })
          | none ↦ elim (next_token t.var_end p) [
            | some q ↦
                let v : Variable = record {
                  name = q.var_buf;
                  default = q.def_buf;
                  has_default = st.def;
                } in
                stop (record { closed = true; parser = append_variable v q })
            | none ↦
                let (run_of, r) =
                  next_bytes_until (first t.var_end ∷ first t.default_val ∷ first t.backslash ∷ [])
                    p.rest in
                again (record st { parser = record p { rest = r; var_buf = p.var_buf ++ run_of } })
          ]
        ]
      ]
    ]

unfoldable pub variable_loop : Tokens → VariableState → VariableEnd
unfolding variable_round
variable_loop t st =
    run (variable_round t) (λ s. record { closed = false; parser = s.parser })
      (λ s. unread s.parser) st

unfoldable pub parse_variable : Tokens → Parser → Parser
unfolding variable_loop
parse_variable t p =
    let end =
      variable_loop t (record { def = false; parser = record p { var_buf = []; def_buf = [] } }) in
    if end.closed
    then end.parser
    else append_literal t.var_begin (record (end.parser) { rest = p.rest })

-- A round of the loop of parse.
unfoldable pub parse_round : Tokens → Parser → Round Parser Parser
unfolding next_token next_bytes_until parse_backslash parse_variable
parse_round t p = elim p.rest [
  | [] ↦ stop p
  | c ∷ s ↦ elim (next_token t.backslash p) [
    | some q ↦ again (parse_backslash t q)
    | none ↦ elim (next_token t.var_begin p) [
      | some q ↦ again (parse_variable t q)
      | none ↦
          let (run_of, r) = next_bytes_until (first t.var_begin ∷ first t.backslash ∷ []) p.rest in
          again (append_literal run_of (record p { rest = r }))
    ]
  ]
]

unfoldable pub parse_loop : Tokens → Parser → Parser
unfolding parse_round
parse_loop t p = run (parse_round t) (λ q. q) unread p

unfoldable pub run_parser : Tokens → Bytes → Parsed
unfolding parse_loop append_buffer
run_parser t s =
    (append_buffer
      (parse_loop t (record { rest = s; out = []; lit_buf = []; var_buf = []; def_buf = [] }))).out

-- The tokens of a parser whose variables begin with `sigil` and a brace.
abbrev pub tokens : ℕ → Tokens
tokens sigil = record {
  backslash = b'\\' ∷ [];
  var_begin = sigil ∷ b'{' ∷ [];
  var_end = b'}' ∷ [];
  default_val = b'-' ∷ [];
}

-- Parse and ParsePercent, with dollarParser and percentParser
unfoldable pub parse : Bytes → Parsed
unfolding run_parser
parse s = run_parser (tokens b'$') s

unfoldable pub parse_percent : Bytes → Parsed
unfolding run_parser
parse_percent s = run_parser (tokens b'%') s

-- Interpolate
unfoldable pub interpolate : (Variable → Bytes) → Parsed → Bytes
interpolate mapping [] = []
interpolate mapping (literal s ∷ ps) = s ++ interpolate mapping ps
interpolate mapping (variable v ∷ ps) = mapping v ++ interpolate mapping ps

-- HasVars
unfoldable pub has_vars : Parsed → Bool
has_vars [] = false
has_vars (literal s ∷ ps) = has_vars ps
has_vars (variable v ∷ ps) = true
