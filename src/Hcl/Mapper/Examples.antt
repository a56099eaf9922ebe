-- ===== src/Hcl/Mapper/Examples.antt =====
-- A cty library whose values are the Go values that they are made of, and a round trip through it.
use mathlib.Core.Path.{subst}
use go_utils.Hcl.Mapper.{
  Number, whole, Kind, string_kind, number_kind, bool_kind, list_kind, map_kind, dynamic_kind,
  other_kind, unsupported, too_large, Outcome, panics, fails, done, string_type, int_type,
  slice_type, map_type, Go, string_go, bool_go, int_go, nil_go, big_float_go, slice_go, map_go, Gos,
  no_gos, cons_go, Entries, no_entries, entry, Cty, Mapper, int64, whole_number,
}
use go_utils.Hcl.Mapper.From.{
  of_kind, of_sequence, of_entries, from_elements, from_entries, from_slice, from_map, from_number,
  from_string, from_cty,
}
use go_utils.Hcl.Mapper.RoundTrip.{from_cty-to_cty}
use go_utils.Hcl.Mapper.To.{add_key, slice_val, to_cty, to_ctys, to_cty_entries}
use go_utils.Hcl.Mapper.Typed.{
  IsInt, IsUint, values_of, as_elements, Laws, has_int, has_slice, has_map, have_none, have_one,
  have_no_entry, have_entry,
}
use go_utils.Hcl.Mapper.Sound.{Fits, from_cty-Fits}
use go_utils.Prelude.Int.{ℤ, pos, negsuc}
use go_utils.Prelude.{
  ℕ, suc, ◌≡◌, refl, ap, Bool, true, ◌&&◌, if◌then◌else◌, leb, ltb, ◌≤◌, ◌<◌, ◌^◌, ◌-◌, List, [],
  ◌∷◌, Bytes, arith, codes,
}

abbrev kind_of : Go ℕ → Kind
kind_of (string_go s) = string_kind
kind_of (bool_go b) = bool_kind
kind_of (big_float_go n) = number_kind
kind_of (slice_go gs) = list_kind
kind_of (map_go es) = map_kind
kind_of nil_go = dynamic_kind
kind_of g = other_kind

abbrev text_of : Go ℕ → Outcome Bytes
text_of (string_go s) = done s
text_of g = panics

abbrev number_of : Go ℕ → Outcome Number
number_of (big_float_go n) = done n
number_of g = panics

abbrev truth_of : Go ℕ → Outcome Bool
truth_of (bool_go b) = done b
truth_of g = panics

abbrev indexed : ℕ → Gos ℕ → List (Go ℕ × Go ℕ)
indexed i no_gos = []
indexed i (cons_go g gs) = (big_float_go (whole (pos i)), g) ∷ indexed (suc i) gs

abbrev listed : Entries ℕ → List (Go ℕ × Go ℕ)
listed no_entries = []
listed (entry k g es) = (k, g) ∷ listed es

abbrev elements_of : Go ℕ → Outcome (List (Go ℕ × Go ℕ))
elements_of (slice_go gs) = done (indexed 0 gs)
elements_of (map_go es) = done (listed es)
elements_of g = panics

abbrev gos_of : List (Go ℕ) → Gos ℕ
gos_of [] = no_gos
gos_of (g ∷ gs) = cons_go g (gos_of gs)

abbrev entries_of : List (Bytes × Go ℕ) → Entries ℕ
entries_of [] = no_entries
entries_of ((k, g) ∷ es) = entry (string_go k) g (entries_of es)

abbrev list_of : List (Go ℕ) → Outcome (Go ℕ)
list_of [] = panics
list_of (g ∷ gs) = done (slice_go (gos_of (g ∷ gs)))

abbrev map_of : List (Bytes × Go ℕ) → Outcome (Go ℕ)
map_of [] = panics
map_of (e ∷ es) = done (map_go (entries_of (e ∷ es)))

abbrev library : Cty (Go ℕ)
library = record {
  kind = kind_of;
  as_string = text_of;
  as_big_float = number_of;
  is_true = truth_of;
  elements = elements_of;
  string_val = λ s. string_go s;
  bool_val = λ b. bool_go b;
  number_val = λ n. big_float_go n;
  number_float_val = λ x. panics;
  list_val_empty = slice_go no_gos;
  list_val = list_of;
  map_val = map_of;
}

abbrev key_of : Go (Go ℕ) → Outcome Bytes
key_of (string_go s) = done s
key_of g = fails unsupported

narrow : ℕ → ℤ → Outcome ℤ
narrow w (pos n) = if leb w 64 && ltb n (2 ^ (w - 1)) then done (pos n) else fails too_large
narrow w (negsuc n) = if leb w 64 && ltb n (2 ^ (w - 1)) then done (negsuc n) else fails too_large

narrow_uint : ℕ → ℕ → Outcome ℕ
narrow_uint w n = if leb w 64 && ltb n (2 ^ w) then done n else fails too_large

-- A test that passes, and what passes it.
passes :
    {A : Type 0} (w b n : ℕ) (a : A)
    → w ≤ 64
    → n < b
    → (if leb w 64 && ltb n b then done a else fails too_large) ≡ done a
passes w b n a l h = ground arith

IsInt-narrow : (w : ℕ) (z : ℤ) → IsInt w z → narrow w z ≡ done z
unfolding narrow
IsInt-narrow w (pos n) (l, h) = passes w (2 ^ (w - 1)) n (pos n) l h
IsInt-narrow w (negsuc n) (l, h) = passes w (2 ^ (w - 1)) n (negsuc n) l h

IsUint-narrow_uint : (w n : ℕ) → IsUint w n → narrow_uint w n ≡ done n
unfolding narrow_uint
IsUint-narrow_uint w n (l, h) = passes w (2 ^ w) n n l h

abbrev mapper : Mapper (Go ℕ)
mapper = record {
  map_int = narrow;
  map_uint = narrow_uint;
  map_float = λ w n. fails unsupported;
  map_any = λ c. fails unsupported;
  map_key = key_of;
  unmarshal = λ n c. fails unsupported;
  marshal = λ n. fails unsupported;
}

values-indexed : (i : ℕ) (gs : List (Go ℕ)) → values_of (indexed i (gos_of gs)) ≡ gs
values-indexed i [] = refl
values-indexed i (g ∷ gs) = ap (λ l. g ∷ l) (values-indexed (suc i) gs)

done_same : {A : Type 0} {a b : A} → done a ≡ done b → a ≡ b
done_same h = cc

list_of-elements :
    (cs : List (Go ℕ)) (c : Go ℕ)
    → list_of cs ≡ done c
    → (kind_of c ≡ list_kind)
      × ((es : List (Go ℕ × Go ℕ)) × (elements_of c ≡ done es) × (values_of es ≡ cs))
list_of-elements [] c h = cc
list_of-elements (g ∷ gs) c h =
    subst
      (λ (x : Go ℕ).
        (kind_of x ≡ list_kind)
        × ((es : List (Go ℕ × Go ℕ)) × (elements_of x ≡ done es) × (values_of es ≡ g ∷ gs)))
      (done_same h) (refl, (indexed 0 (gos_of (g ∷ gs)), refl, values-indexed 0 (g ∷ gs)))

map_of-elements :
    (vs : List (Bytes × Go ℕ)) (c : Go ℕ)
    → map_of vs ≡ done c
    → (kind_of c ≡ map_kind) × (elements_of c ≡ done (as_elements (λ s. string_go s) vs))
map_of-elements [] c h = cc
map_of-elements (v ∷ vs) c h =
    subst
      (λ (x : Go ℕ).
        (kind_of x ≡ map_kind) × (elements_of x ≡ done (as_elements (λ s. string_go s) (v ∷ vs))))
      (done_same h) (refl, ap done (listed-entries (v ∷ vs)))
  where
    listed-entries :
        (ws : List (Bytes × Go ℕ)) → listed (entries_of ws) ≡ as_elements (λ s. string_go s) ws
    listed-entries [] = refl
    listed-entries ((k, w) ∷ ws) = ap (λ l. (string_go k, w) ∷ l) (listed-entries ws)

library-Laws : Laws (λ s. Unit) (λ l. Unit) library mapper
library-Laws = record {
  string_is = λ s. refl;
  string_has = λ s n. refl;
  bool_is = λ b. refl;
  bool_has = λ b. refl;
  number_is = λ n. refl;
  number_has = λ n. refl;
  empty_is = refl;
  empty_has = refl;
  list_is = λ cs c h. (list_of-elements cs c h).0;
  list_has = λ cs c w h. (list_of-elements cs c h).1;
  map_is = λ vs c h. (map_of-elements vs c h).0;
  map_has = λ vs c w h o. (map_of-elements vs c h).1;
  int_fits = IsInt-narrow;
  uint_fits = IsUint-narrow_uint;
  key_is = λ s. refl;
}

-- []map[string]int8{{"a": -3, "b": 7}, {"b": 0}}
abbrev prices : Go (Go ℕ)
prices = slice_go (
    cons_go
      (map_go (
        entry (string_go (codes "a")) (int_go (negsuc 2))
          (entry (string_go (codes "b")) (int_go (pos 7)) no_entries)))
      (cons_go (map_go (entry (string_go (codes "b")) (int_go (pos 0)) no_entries)) no_gos))

abbrev prices_value : Go ℕ
prices_value = slice_go (
    cons_go
      (map_go (
        entry (string_go (codes "a")) (big_float_go (whole (negsuc 2)))
          (entry (string_go (codes "b")) (big_float_go (whole (pos 7))) no_entries)))
      (cons_go (map_go (entry (string_go (codes "b")) (big_float_go (whole (pos 0))) no_entries))
        no_gos))

-- An entry with an empty key is left out.
empty_key :
    to_cty library mapper (
      map_go (
        entry
          (string_go [])
          (bool_go true)
          (entry (string_go (codes "a")) (bool_go true) no_entries)))
    ≡ done (map_go (entry (string_go (codes "a")) (bool_go true) no_entries))
unfolding to_cty to_cty_entries add_key
empty_key = refl

from_cty-to_cty_example :
    from_cty library mapper (slice_type (map_type string_type (int_type 8))) prices_value
    ≡ done prices
unfolding to_cty to_ctys to_cty_entries add_key slice_val
from_cty-to_cty_example =
    from_cty-to_cty (λ s. Unit) (λ l. Unit) library mapper
      (slice_type (map_type string_type (int_type 8))) prices prices_value library-Laws
      (has_slice (
        have_one
          (has_map
            (have_entry tt (has_int (omega arith, omega arith))
              (have_entry tt (has_int (omega arith, omega arith)) have_no_entry))
            tt)
          (have_one (has_map (have_entry tt (has_int (omega arith, omega arith)) have_no_entry) tt)
            have_none)))
      refl

from_cty-Fits_example :
    Fits library mapper (slice_type (map_type string_type (int_type 8))) prices_value prices
unfolding of_kind of_sequence of_entries from_elements from_entries from_slice from_map from_number
    from_string from_cty whole_number int64 narrow
from_cty-Fits_example =
    from_cty-Fits library mapper (slice_type (map_type string_type (int_type 8))) prices_value
      prices refl
