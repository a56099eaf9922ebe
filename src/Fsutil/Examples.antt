-- ===== src/Fsutil/Examples.antt =====
-- The chain of fsutil/fsutil.go on file systems that are numbers.
use go_utils.Errutil.{plain, multi, nil, cons, concat, parts, append_loop, combined, append}
use go_utils.Fsutil.{
  Returned, IoFs, new_chain_fs, returned_or, try_each, globbed_or, glob_each, open_file, glob, stat,
  read_file, read_dir, sub,
}
use go_utils.Fsutil.Chain.{ErrorsFlat}
use go_utils.Fsutil.Methods.{Answers, methods-Answers}
use go_utils.Fsutil.Nested.{ErrorsSay, Same, methods-nested}
use go_utils.Fsutil.Paths.{Globbed, Globs}
use mathlib.Core.Path.{subst}
use go_utils.Prelude.{ℕ, zero, suc, ◌≡◌, ◌≢◌, refl, ap, none, some, [], ◌∷◌, codes}

-- The first fails, the second has the file, and the others are chains of the first, twice.
abbrev answer : {A : Type 0} → A → ℕ → Returned A
answer a zero = (none, some (plain "no file"))
answer a (suc zero) = (some a, none)
answer a (suc (suc n)) = (none, some (multi (cons (plain "no file") (cons (plain "no file") nil))))

abbrev paths_of : ℕ → Globbed
paths_of zero = (codes "a" ∷ [], none)
paths_of (suc zero) = (codes "b" ∷ codes "c" ∷ [], none)
paths_of (suc (suc n)) = ([], some (plain "bad pattern"))

abbrev disks : IoFs ℕ ℕ ℕ ℕ
disks = record {
  opens = λ f name. answer 1 f;
  globs = λ f pattern. paths_of f;
  stats = λ f name. answer 2 f;
  reads_file = λ f name. answer (codes "text") f;
  reads_dir = λ f name. answer 3 f;
  subs = λ f name. answer 1 f;
}

answer-ErrorsFlat : {A : Type 0} (a : A) → ErrorsFlat (λ f. answer a f)
unfolding parts
answer-ErrorsFlat a zero = tt
answer-ErrorsFlat a (suc zero) = tt
answer-ErrorsFlat a (suc (suc n)) = tt

answer-ErrorsSay : {A : Type 0} (a : A) → ErrorsSay (λ f. answer a f)
unfolding parts
answer-ErrorsSay {A} a zero b e q =
    subst (λ (r : Returned A). parts (r.1) ≢ nil) q (λ (h : cons (plain "no file") nil ≡ nil). cc)
answer-ErrorsSay {A} a (suc zero) b e q =
    let h : none ≡ some e = ap (λ (r : Returned A). r.1) q in cc
answer-ErrorsSay {A} a (suc (suc n)) b e q =
    subst (λ (r : Returned A). parts (r.1) ≢ nil) q
      (λ (h : cons (plain "no file") (cons (plain "no file") nil) ≡ nil). cc)

open_second : open_file disks (new_chain_fs (0 ∷ 1 ∷ 2 ∷ [])) (codes "a") ≡ (some 1, none)
unfolding open_file new_chain_fs try_each returned_or append
open_second = refl

glob_both :
    glob disks (new_chain_fs (0 ∷ 1 ∷ [])) (codes "*")
    ≡ (codes "a" ∷ codes "b" ∷ codes "c" ∷ [], none)
unfolding glob new_chain_fs glob_each globbed_or
glob_both = refl

glob_bad : glob disks (new_chain_fs (0 ∷ 2 ∷ 1 ∷ [])) (codes "*") ≡ ([], some (plain "bad pattern"))
unfolding glob new_chain_fs glob_each globbed_or
glob_bad = refl

-- A chain of no file systems has no file and no error.
open_empty : open_file disks (new_chain_fs []) (codes "a") ≡ (none, none)
unfolding open_file new_chain_fs try_each
open_empty = refl

methods-Answers_example :
    Answers (λ f. answer 1 f) (0 ∷ 1 ∷ []) (open_file disks (new_chain_fs (0 ∷ 1 ∷ [])) (codes "a"))
    × Answers (λ f. answer 2 f) (0 ∷ 1 ∷ []) (stat disks (new_chain_fs (0 ∷ 1 ∷ [])) (codes "a"))
    × Answers
        (λ f. answer (codes "text") f)
        (0 ∷ 1 ∷ [])
        (read_file disks (new_chain_fs (0 ∷ 1 ∷ [])) (codes "a"))
    × Answers
        (λ f. answer 3 f)
        (0 ∷ 1 ∷ [])
        (read_dir disks (new_chain_fs (0 ∷ 1 ∷ [])) (codes "a"))
    × Answers (λ f. answer 1 f) (0 ∷ 1 ∷ []) (sub disks (new_chain_fs (0 ∷ 1 ∷ [])) (codes "a"))
    × Globs (λ f. paths_of f) (0 ∷ 1 ∷ []) [] (glob disks (new_chain_fs (0 ∷ 1 ∷ [])) (codes "a"))
methods-Answers_example =
    methods-Answers disks (0 ∷ 1 ∷ []) (codes "a") (answer-ErrorsFlat 1) (answer-ErrorsFlat 2)
      (answer-ErrorsFlat (codes "text")) (answer-ErrorsFlat 3) (answer-ErrorsFlat 1)

methods-nested_example :
    Same (λ l. open_file disks (new_chain_fs l) (codes "a")) (0 ∷ []) 2 (0 ∷ 0 ∷ []) (0 ∷ [])
    × Same (λ l. stat disks (new_chain_fs l) (codes "a")) (0 ∷ []) 2 (0 ∷ 0 ∷ []) (0 ∷ [])
    × Same (λ l. read_file disks (new_chain_fs l) (codes "a")) (0 ∷ []) 2 (0 ∷ 0 ∷ []) (0 ∷ [])
    × Same (λ l. read_dir disks (new_chain_fs l) (codes "a")) (0 ∷ []) 2 (0 ∷ 0 ∷ []) (0 ∷ [])
    × Same (λ l. sub disks (new_chain_fs l) (codes "a")) (0 ∷ []) 2 (0 ∷ 0 ∷ []) (0 ∷ [])
unfolding open_file stat read_file read_dir sub new_chain_fs try_each returned_or append append_loop
    combined concat parts
methods-nested_example =
    methods-nested disks (0 ∷ []) (0 ∷ []) (0 ∷ []) 2 0 (codes "a") refl refl refl refl refl
      (answer-ErrorsFlat 1, answer-ErrorsSay 1) (answer-ErrorsFlat 2, answer-ErrorsSay 2)
      (answer-ErrorsFlat (codes "text"), answer-ErrorsSay (codes "text"))
      (answer-ErrorsFlat 3, answer-ErrorsSay 3) (answer-ErrorsFlat 1, answer-ErrorsSay 1)
