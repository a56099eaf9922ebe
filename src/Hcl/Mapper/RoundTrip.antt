-- ===== src/Hcl/Mapper/RoundTrip.antt =====
-- A Go value that toCtyMapper of hcl/mapper.go maps to a cty value is what fromCtyMapper maps that to.
use go_utils.Hcl.Mapper.{
  whole, done, GoType, string_type, Go, string_go, Gos, Entries, no_entries, entry, Cty, Mapper,
  whole_number,
}
use go_utils.Hcl.Mapper.From.{from_elements, from_entries, from_cty}
use go_utils.Hcl.Mapper.To.{add_key, to_cty, to_ctys, to_cty_entries}
use go_utils.Hcl.Mapper.Typed.{
  values_of, keys_of, as_elements, Laws, texts_of, HasType, has_string, has_bool, has_int, has_uint,
  has_big_int, has_big_float, has_slice, has_map, HaveType, have_none, have_one, EntriesHave,
  have_no_entry, have_entry,
}
use mathlib.Core.Path.{subst}
use go_utils.Prelude.{◌≡◌, refl, sym, ap, ◌∙◌, List, [], ◌∷◌, Bytes}
use go_utils.Hcl.Mapper.Steps.{
  done_of_bind, done_inj, bind-done, number-back, string-back, bool-back, int-back, uint-back,
  map-back, at, at_entries, kept_entry, entries_static, back_slice,
}

module _ (IsNormal : Bytes → Type 0) (InOrder : List Bytes → Type 0) {V : Type 0} (cty : Cty V)
    (m : Mapper V) (laws : Laws IsNormal InOrder cty m) where
  -- What the elements of a list, and those of a map, are mapped back to.
  mutual
    unfolding to_cty to_ctys to_cty_entries add_key from_cty from_elements from_entries whole_number

    back :
        (T : GoType) (g : Go V) (c : V)
        → HasType IsNormal InOrder T g
        → to_cty cty m g ≡ done c
        → from_cty cty m T c ≡ done g
    back T g c (has_string {s = s} n) h =
        at IsNormal InOrder cty m laws T g c h (string-back IsNormal InOrder cty m laws s n)
    back T g c (has_bool {b = b}) h =
        at IsNormal InOrder cty m laws T g c h (bool-back IsNormal InOrder cty m laws b)
    back T g c (has_int {w = w} {z = z} i) h =
        at IsNormal InOrder cty m laws T g c h (int-back IsNormal InOrder cty m laws w z i)
    back T g c (has_uint {w = w} {n = n} i) h =
        at IsNormal InOrder cty m laws T g c h (uint-back IsNormal InOrder cty m laws w n i)
    back T g c (has_big_int {z = z}) h =
        at IsNormal InOrder cty m laws T g c h (number-back IsNormal InOrder cty m laws (whole z) _)
    back T g c (has_big_float {n = n}) h =
        at IsNormal InOrder cty m laws T g c h (number-back IsNormal InOrder cty m laws n _)
    back T g c (has_slice {T = U} {gs = gs} w) h =
        back_slice IsNormal InOrder cty m laws U gs c w h (λ cs es q v. back_all U gs cs es w q v)
    back T g c (has_map {T = U} {es = es} w o) h =
        let (vs, q, r) = done_of_bind (to_cty_entries cty m es) (λ ws. cty.map_val ws) h in
        let (keys, fs) = back_entries U es vs w q in
        map-back IsNormal InOrder cty m laws (from_cty cty m string_type) (from_cty cty m U) c
          (laws.map_is vs c r)
          (laws.map_has vs c (entries_static IsNormal InOrder cty m laws U es vs w q) r
            (subst InOrder (sym keys) o))
          fs

    back_all :
        (T : GoType) (gs : Gos V) (cs : List V) (es : List (V × V))
        → HaveType IsNormal InOrder T gs
        → to_ctys cty m gs ≡ done cs
        → values_of es ≡ cs
        → from_elements cty m (from_cty cty m T) es ≡ done gs
    back_all T gs cs [] have_none h q = refl
    back_all T gs cs ((k, v) ∷ es) have_none h q = let p : [] ≡ cs = done_inj h in cc
    back_all T gs cs [] (have_one {g = g} {gs = hs} t ts) h q =
        let (d, r, k) = done_of_bind (to_cty cty m g) _ h in
        let (ds, u, l) = done_of_bind (to_ctys cty m hs) _ k in cc
    back_all T gs cs ((k, v) ∷ es) (have_one {g = g} {gs = hs} t ts) h q =
        let (d, r, n) = done_of_bind (to_cty cty m g) _ h in
        let (ds, u, l) = done_of_bind (to_ctys cty m hs) (λ xs. done (d ∷ xs)) n in
        let all : d ∷ ds ≡ v ∷ values_of es = done_inj l ∙ sym q in
        let first : d ≡ v = cc in
        let others : values_of es ≡ ds = cc in
        bind-done _ (subst (λ x. from_cty cty m T x ≡ done g) first (back T g d t r))
        ∙ bind-done _ (back_all T hs ds es ts u others)

    back_entries :
        (T : GoType) (es : Entries V) (vs : List (Bytes × V))
        → EntriesHave IsNormal InOrder T es
        → to_cty_entries cty m es ≡ done vs
        → (keys_of vs ≡ texts_of IsNormal InOrder es)
          × (from_entries cty m
                (from_cty cty m string_type)
                (from_cty cty m T)
                (as_elements cty.string_val vs)
              ≡ done es)
    back_entries T es vs have_no_entry h =
        at_entries IsNormal InOrder cty m laws T no_entries [] vs (done_inj h) (refl, refl)
    back_entries T es vs (have_entry {c = c} {cs = cs} {g = g} {es = fs} n t ts) h =
        let (v, ws, q, u, same) = kept_entry IsNormal InOrder cty m laws c cs g fs vs h in
        let (keys, rest) = back_entries T fs ws ts u in
        at_entries IsNormal InOrder cty m laws T (entry (string_go (c ∷ cs)) g fs)
          ((c ∷ cs, v) ∷ ws) vs same
          (
            ap (λ l. (c ∷ cs) ∷ l) keys,
            bind-done _ (string-back IsNormal InOrder cty m laws (c ∷ cs) n)
                ∙ bind-done _ (back T g v t q)
                ∙ bind-done _ rest,
          )

-- A Go value that is mapped to a cty value is what that is mapped back to, into the value's type. The value
-- has texts that the cty library keeps, integers of their widths, and maps by texts that are not empty,
-- listed by them; it has no floats, values of cty itself, of interfaces, nor of types with methods. The cty
-- library returns what its values are made of, and the mapper keeps integers that fit.
pub from_cty-to_cty :
    (IsNormal : Bytes → Type 0) (InOrder : List Bytes → Type 0) {V : Type 0} (cty : Cty V)
    (m : Mapper V) (T : GoType) (g : Go V) (c : V)
    → Laws IsNormal InOrder cty m
    → HasType IsNormal InOrder T g
    → to_cty cty m g ≡ done c
    → from_cty cty m T c ≡ done g
from_cty-to_cty IsNormal InOrder cty m T g c laws w h = back IsNormal InOrder cty m laws T g c w h
