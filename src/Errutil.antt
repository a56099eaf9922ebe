-- ===== src/Errutil.antt =====
-- Append of errutil/errutil.go. An error is nil (none), a MultiError, or another error, by its message.
-- A slice is a value here: that two results of Append may share an array is not modelled.
pub mod Parts
pub mod Text
use Prim.Native.String.{String}
use go_utils.Prelude.{Option, none, some, List, [], ◌∷◌}

mutual
  pub data Error : Type 0 where
    plain : String → Error
    multi : MultiError → Error

  pub data MultiError : Type 0 where
    nil : MultiError
    cons : Error → MultiError → MultiError

-- append(es, fs...)
unfoldable pub concat : MultiError → MultiError → MultiError
concat nil fs = fs
concat (cons e es) fs = cons e (concat es fs)

-- What an argument adds to the errors that are collected: the elements of a MultiError, or itself.
unfoldable pub parts : Option Error → MultiError
parts none = nil
parts (some (multi es)) = es
parts (some (plain m)) = cons (plain m) nil

-- The loop over `errs`.
unfoldable pub append_loop : MultiError → List (Option Error) → MultiError
unfolding parts concat
append_loop m_err [] = m_err
append_loop m_err (e ∷ errs) = append_loop (concat m_err (parts e)) errs

-- The switch on len(mErr).
unfoldable pub combined : MultiError → Option Error
combined nil = none
combined (cons e nil) = some e
combined (cons e (cons f es)) = some (multi (cons e (cons f es)))

unfoldable pub append : Option Error → List (Option Error) → Option Error
unfolding append_loop combined
append none [] = none
append err errs = combined (append_loop (parts err) errs)
