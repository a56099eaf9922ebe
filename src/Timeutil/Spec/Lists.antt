-- ===== src/Timeutil/Spec/Lists.antt =====
-- Lists of values in the text of a schedule of timeutil/scheduler.go, read back.
use go_utils.Prelude.{
  ℕ, ◌-◌, ◌<◌, ◌≡◌, refl, sym, ap, ◌∙◌, ◌≢◌, true, false, Option, some, List, [], ◌∷◌, ◌++◌,
  append-nil, append_assoc, arith, leb, length, length-append, take, drop, All, All-append, Bytes,
  codes, bytes_eq,
}
use go_utils.Prelude.{nat_comparable}
use go_utils.Sliceutil.{contains, unique}
use go_utils.Sliceutil.Sets.{IsDistinct, unique_distinct}
use go_utils.Prelude.Sorted.{IsSorted}
use go_utils.Timeutil.Spec.{
  on_first, split, trim_suffix, parse_all, insert_sorted, sort_nums, tidy, parse_values, parse_part,
  join_values, write_values,
}
use go_utils.Timeutil.Spec.Shown.{IsPlain, Shows}

pub split_piece :
    (sep : ℕ) (w rest : Bytes)
    → All (λ c. c ≢ sep) w
    → split sep (w ++ sep ∷ rest) ≡ w ∷ split sep rest
unfolding split on_first
split_piece sep [] rest h = ground arith
split_piece sep (c ∷ w) rest (n, h) = rw (split_piece sep w rest h) (ground arith)

pub split_last : (sep : ℕ) (w : Bytes) → All (λ c. c ≢ sep) w → split sep w ≡ w ∷ []
unfolding split on_first
split_last sep [] h = refl
split_last sep (c ∷ w) (n, h) = rw (split_last sep w h) (ground arith)

insert_sorted_first : (n : ℕ) (ms : List ℕ) → All (λ m. n < m) ms → insert_sorted n ms ≡ n ∷ ms
unfolding insert_sorted
insert_sorted_first n [] h = refl
insert_sorted_first n (m ∷ ms) h = ground arith

sort_sorted : (ns : List ℕ) → IsSorted ns → sort_nums ns ≡ ns
unfolding sort_nums
sort_sorted [] h = refl
sort_sorted (n ∷ ns) (l, h) = rw (sort_sorted ns h) (insert_sorted_first n ns l)

contains_above : (n : ℕ) (ms : List ℕ) → All (λ m. n < m) ms → contains ms n ≡ false
unfolding contains
contains_above n [] h = refl
contains_above n (m ∷ ms) h = ground (arith, contains_above n ms)

IsSorted-IsDistinct : (ns : List ℕ) → IsSorted ns → IsDistinct ns
IsSorted-IsDistinct [] h = tt
IsSorted-IsDistinct (n ∷ ns) (l, h) = (contains_above n ns l, IsSorted-IsDistinct ns h)

tidy_sorted : (ns : List ℕ) → IsSorted ns → tidy ns ≡ ns
unfolding tidy
tidy_sorted [] h = unique_distinct [] tt
tidy_sorted (n ∷ []) h = refl
tidy_sorted (n ∷ m ∷ ns) h =
    ap (λ ks. unique (ks ∷ [])) (sort_sorted (n ∷ m ∷ ns) h)
    ∙ unique_distinct (n ∷ m ∷ ns) (IsSorted-IsDistinct (n ∷ m ∷ ns) h)

drop_append : (w suffix : Bytes) → drop (length w) (w ++ suffix) ≡ suffix
drop_append [] suffix = refl
drop_append (c ∷ w) suffix = drop_append w suffix

take_append : (w suffix : Bytes) → take (length w) (w ++ suffix) ≡ w
take_append [] suffix = refl
take_append (c ∷ w) suffix = ap (λ v. c ∷ v) (take_append w suffix)

bytes_eq_refl : (s : Bytes) → bytes_eq s s ≡ true
bytes_eq_refl [] = refl
bytes_eq_refl (c ∷ s) = ground (arith, bytes_eq_refl s)

trim_suffix_append : (w suffix : Bytes) → trim_suffix (w ++ suffix) suffix ≡ w
unfolding trim_suffix
trim_suffix_append w suffix =
    let e : length (w ++ suffix) - length suffix ≡ length w =
      omega (arith, length-append w suffix) in
    let l : leb (length suffix) (length (w ++ suffix)) ≡ true =
      ground (arith, length-append w suffix) in
    rw (e, l, drop_append w suffix, bytes_eq_refl suffix, take_append w suffix) refl

module _ (fn : Bytes → Option ℕ) (show : ℕ → Bytes) where
  abbrev pub AreShown : List ℕ → Type 0
  AreShown ns = All (λ n. Shows fn show n) ns

  abbrev texts : List ℕ → List Bytes
  texts [] = []
  texts (n ∷ ns) = show n ∷ texts ns

  parse_texts : (ns : List ℕ) → AreShown ns → parse_all fn (texts ns) ≡ some ns
  unfolding parse_all
  parse_texts [] h = refl
  parse_texts (n ∷ ns) (s, h) = rw (s.readback, parse_texts ns h) refl

  no_comma : (s : Bytes) → All IsPlain s → All (λ c. c ≢ b',') s
  no_comma [] h = tt
  no_comma (c ∷ s) (p, h) = (p.0, no_comma s h)

  no_space : (s : Bytes) → All IsPlain s → All (λ c. c ≢ b' ') s
  no_space [] h = tt
  no_space (c ∷ s) (p, h) = (p.1, no_space s h)

  split_values :
      (n : ℕ) (ns : List ℕ)
      → AreShown (n ∷ ns)
      → split b',' (join_values show (n ∷ ns)) ≡ texts (n ∷ ns)
  unfolding join_values
  split_values n [] (s, h) = split_last b',' (show n) (no_comma (show n) s.plain)
  split_values n (m ∷ ns) (s, h) =
      split_piece b',' (show n) (join_values show (m ∷ ns)) (no_comma (show n) s.plain)
      ∙ ap (λ ps. show n ∷ ps) (split_values m ns h)

  pub write_values_spaces : (ns : List ℕ) → AreShown ns → All (λ c. c ≢ b' ') (write_values show ns)
  unfolding write_values join_values
  write_values_spaces [] h = (λ e. ground (arith, e), tt)
  write_values_spaces (n ∷ []) (s, h) = no_space (show n) s.plain
  write_values_spaces (n ∷ m ∷ ns) (s, h) =
      All-append (λ c. c ≢ b' ') (show n) (b',' ∷ join_values show (m ∷ ns))
        (no_space (show n) s.plain) (λ e. ground (arith, e), write_values_spaces (m ∷ ns) h)

  -- A text that begins with a plain byte is no asterisk.
  no_asterisk : (w rest : Bytes) → All IsPlain w → w ≢ [] → bytes_eq (w ++ rest) (codes "*") ≡ false
  no_asterisk [] rest h n = absurd (n refl)
  no_asterisk (c ∷ w) rest (p, h) n = let other = p.2 in ground (arith, other)

  join_no_asterisk :
      (n : ℕ) (ns : List ℕ)
      → AreShown (n ∷ ns)
      → bytes_eq (join_values show (n ∷ ns)) (codes "*") ≡ false
  unfolding join_values
  join_no_asterisk n [] (s, h) =
      rw (← append-nil (show n)) (no_asterisk (show n) [] s.plain s.some_byte)
  join_no_asterisk n (m ∷ ns) (s, h) =
      no_asterisk (show n) (b',' ∷ join_values show (m ∷ ns)) s.plain s.some_byte

  parse_written :
      (ns : List ℕ) → IsSorted ns → AreShown ns → parse_values fn (write_values show ns) ≡ some ns
  unfolding parse_values write_values
  parse_written [] l h = refl
  parse_written (n ∷ ns) l h =
      rw
        (
          join_no_asterisk n ns h,
          split_values n ns h,
          parse_texts (n ∷ ns) h,
          tidy_sorted (n ∷ ns) l,
        )
        refl

  pub parse_part_written :
      (ns : List ℕ) (suffix : Bytes)
      → IsSorted ns
      → AreShown ns
      → parse_part (write_values show ns ++ suffix) suffix fn ≡ some ns
  unfolding parse_part
  parse_part_written ns suffix l h =
      ap (parse_values fn) (trim_suffix_append (write_values show ns) suffix) ∙ parse_written ns l h

  -- The text of a list with one byte more, in front of a space: the first part of the rest of the text.
  pub split_written :
      (ns : List ℕ) (suffix : ℕ) (rest : Bytes)
      → AreShown ns
      → suffix ≢ b' '
      → split b' ' (write_values show ns ++ suffix ∷ b' ' ∷ rest)
        ≡ (write_values show ns ++ suffix ∷ []) ∷ split b' ' rest
  split_written ns suffix rest h n =
      ap (split b' ') (sym (append_assoc (write_values show ns) (suffix ∷ []) (b' ' ∷ rest)))
      ∙ split_piece b' ' (write_values show ns ++ suffix ∷ []) rest (
          All-append (λ c. c ≢ b' ') (write_values show ns) (suffix ∷ []) (write_values_spaces ns h)
            (n, tt))
