-- ===== src/Hcl/Mapper/From.antt =====
-- fromCtyMapper of hcl/mapper.go: from a cty value to a Go value of a type. What a mapping that fails has
-- written is not modelled.
use go_utils.Hcl.Mapper.{
  Number, Kind, string_kind, number_kind, bool_kind, list_kind, set_kind, tuple_kind, map_kind,
  object_kind, dynamic_kind, other_kind, cannot_decode, unsupported, Outcome, fails, done, ◌>>=◌,
  GoType, string_type, bool_type, big_int_type, big_float_type, value_type, any_type, other_type,
  int_type, uint_type, float_type, named_type, slice_type, map_type, Go, string_go, bool_go, int_go,
  uint_go, float_go, big_int_go, big_float_go, value_go, slice_go, map_go, nil_go, Gos, no_gos,
  cons_go, Entries, no_entries, entry, Cty, Mapper, int64, uint64, whole_number,
}
use go_utils.Prelude.{ℕ, List, [], ◌∷◌}

-- The switch on the type of the value for a Go type, of which a text, a number and a Boolean are alike.
unfoldable pub of_kind : Kind → Kind → {A : Type 0} → Outcome A → Outcome A
of_kind string_kind string_kind go = go
of_kind number_kind number_kind go = go
of_kind bool_kind bool_kind go = go
of_kind wanted k go = fails (cannot_decode k)

-- A list, a set or a tuple
unfoldable pub of_sequence : Kind → {A : Type 0} → Outcome A → Outcome A
of_sequence list_kind go = go
of_sequence set_kind go = go
of_sequence tuple_kind go = go
of_sequence k go = fails (cannot_decode k)

-- A map or an object
unfoldable pub of_entries : Kind → {A : Type 0} → Outcome A → Outcome A
of_entries map_kind go = go
of_entries object_kind go = go
of_entries k go = fails (cannot_decode k)

module _ {V : Type 0} (cty : Cty V) (m : Mapper V) where
  -- The loops over the elements; `from` maps an element.
  unfoldable pub from_elements : (V → Outcome (Go V)) → List (V × V) → Outcome (Gos V)
  from_elements from [] = done no_gos
  from_elements from ((k, v) ∷ es) =
      from v >>= λ g. from_elements from es >>= λ gs. done (cons_go g gs)

  unfoldable pub from_entries :
      (V → Outcome (Go V)) → (V → Outcome (Go V)) → List (V × V) → Outcome (Entries V)
  from_entries from_key from [] = done no_entries
  from_entries from_key from ((k, v) ∷ es) = from_key k >>= λ key.
      from v >>= λ g. from_entries from_key from es >>= λ gs. done (entry key g gs)

  unfoldable pub from_slice : (V → Outcome (Go V)) → V → Outcome (Go V)
  unfolding of_sequence from_elements
  from_slice from c =
      of_sequence (cty.kind c)
        (cty.elements c >>= λ es. from_elements from es >>= λ gs. done (slice_go gs))

  unfoldable pub from_map : (V → Outcome (Go V)) → (V → Outcome (Go V)) → V → Outcome (Go V)
  unfolding of_entries from_entries
  from_map from_key from c =
      of_entries (cty.kind c)
        (cty.elements c >>= λ es. from_entries from_key from es >>= λ gs. done (map_go gs))

  unfoldable pub from_number : V → (Number → Outcome (Go V)) → Outcome (Go V)
  unfolding of_kind
  from_number c go = of_kind number_kind (cty.kind c) (cty.as_big_float c >>= go)

  unfoldable pub from_string : V → Outcome (Go V)
  unfolding of_kind
  from_string c = of_kind string_kind (cty.kind c) (cty.as_string c >>= λ s. done (string_go s))

  unfoldable pub from_bool : V → Outcome (Go V)
  unfolding of_kind
  from_bool c = of_kind bool_kind (cty.kind c) (cty.is_true c >>= λ b. done (bool_go b))

  unfoldable pub from_float : ℕ → V → Outcome (Go V)
  unfolding from_number
  from_float w c = from_number c (λ n. m.map_float w n >>= λ x. done (float_go x))

  -- The mapping into an `any`, by the type of the value.
  unfoldable pub from_any : V → Outcome (Go V)
  unfolding from_string from_float from_bool from_slice from_map
  from_any c = by_kind (cty.kind c)
    where
      by_kind : Kind → Outcome (Go V)
      by_kind string_kind = from_string c
      by_kind number_kind = from_float 64 c
      by_kind bool_kind = from_bool c
      by_kind list_kind = from_slice m.map_any c
      by_kind set_kind = from_slice m.map_any c
      by_kind tuple_kind = from_slice m.map_any c
      by_kind map_kind = from_map from_string m.map_any c
      by_kind object_kind = from_map from_string m.map_any c
      by_kind dynamic_kind = done nil_go
      by_kind other_kind = done (value_go c)

  unfoldable pub from_cty : GoType → V → Outcome (Go V)
  unfolding from_any from_number from_string from_bool from_float from_slice from_map whole_number
      int64 uint64
  from_cty any_type c = from_any c
  from_cty value_type c = done (value_go c)
  from_cty big_int_type c = from_number c (λ n. whole_number n >>= λ z. done (big_int_go z))
  from_cty big_float_type c = from_number c (λ n. done (big_float_go n))
  from_cty (named_type n) c = m.unmarshal n c
  from_cty string_type c = from_string c
  from_cty bool_type c = from_bool c
  from_cty (int_type w) c =
      from_number c
        (λ n. whole_number n >>= λ z. int64 z >>= λ i. m.map_int w i >>= λ j. done (int_go j))
  from_cty (uint_type w) c =
      from_number c
        (λ n. whole_number n >>= λ z. uint64 z >>= λ i. m.map_uint w i >>= λ j. done (uint_go j))
  from_cty (float_type w) c = from_float w c
  from_cty (slice_type T) c = from_slice (from_cty T) c
  from_cty (map_type K T) c = from_map (from_cty K) (from_cty T) c
  from_cty other_type c = fails unsupported
