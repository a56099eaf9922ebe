-- ===== src/Hcl/Mapper/To.antt =====
-- toCtyMapper of hcl/mapper.go: from a Go value to a cty value.
use go_utils.Hcl.Mapper.{
  whole, unsupported, Outcome, fails, done, ◌>>=◌, Go, string_go, bool_go, int_go, uint_go,
  float_go, named_go, other_go, nil_go, big_int_go, big_float_go, value_go, slice_go, map_go, Gos,
  no_gos, cons_go, Entries, no_entries, entry, Cty, Mapper,
}
use go_utils.Prelude.Int.{pos}
use go_utils.Prelude.{List, [], ◌∷◌, Bytes}

-- An entry whose key is mapped to an empty string is left out.
unfoldable pub add_key :
    {V : Type 0} → Bytes → Outcome V → Outcome (List (Bytes × V)) → Outcome (List (Bytes × V))
add_key [] value rest = rest
add_key (c ∷ cs) value rest = value >>= λ v. rest >>= λ es. done ((c ∷ cs, v) ∷ es)

module _ {V : Type 0} (cty : Cty V) (m : Mapper V) where
  -- The slice, with the values that its elements are mapped to.
  unfoldable pub slice_val : Gos V → Outcome (List V) → Outcome V
  slice_val no_gos mapped = done cty.list_val_empty
  slice_val (cons_go g gs) mapped = mapped >>= λ cs. cty.list_val cs

  unfoldable mutual
    unfolding slice_val add_key

    pub to_cty : Go V → Outcome V
    to_cty (value_go c) = done c
    to_cty (big_int_go z) = done (cty.number_val (whole z))
    to_cty (big_float_go n) = done (cty.number_val n)
    to_cty (named_go n) = m.marshal n
    to_cty (string_go s) = done (cty.string_val s)
    to_cty (bool_go b) = done (cty.bool_val b)
    to_cty (int_go z) = done (cty.number_val (whole z))
    to_cty (uint_go n) = done (cty.number_val (whole (pos n)))
    to_cty (float_go x) = cty.number_float_val x
    to_cty (slice_go gs) = slice_val gs (to_ctys gs)
    to_cty (map_go es) = to_cty_entries es >>= λ vs. cty.map_val vs
    to_cty nil_go = fails unsupported
    to_cty (other_go n) = fails unsupported

    pub to_ctys : Gos V → Outcome (List V)
    to_ctys no_gos = done []
    to_ctys (cons_go g gs) = to_cty g >>= λ c. to_ctys gs >>= λ cs. done (c ∷ cs)

    pub to_cty_entries : Entries V → Outcome (List (Bytes × V))
    to_cty_entries no_entries = done []
    to_cty_entries (entry k g es) =
        m.map_key k >>= λ key. add_key key (to_cty g) (to_cty_entries es)
