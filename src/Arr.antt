-- ===== src/Arr.antt =====
-- The growable array (libs/LSO_LIB/array_utils.c). `elements` are the `element_count` elements in
-- use; the memory behind them, up to `len`, is zero, the value `zero` of the element type. `data` is
-- null exactly when `len` is 0.
use lso_baldini.Common.{
  ℕ, ◌-◌, ◌*◌, List, [], ◌∷◌, ◌++◌, Bool, true, false, Option, none, some, ◌==◌, leb, if◌then◌else◌,
  length, get_elem?, replicate,
}
use lso_baldini.Memory.{mu_calloc, exits}
use lso_baldini.Run.{Run, ret, exited}

pub record Arr (A : Type 0) : Type 0 where
  pub len : ℕ
  pub elements : List A
  pub is_sorted : Bool

-- `(u_arr){ 0 }`
abbrev pub no_arr : {A : Type 0} → Arr A
no_arr = record { len = 0; elements = []; is_sorted = false }

module _ {A : Type 0} where
  unfoldable pub au_init_arr : ℕ → ℕ → Run (Arr A)
  unfolding mu_calloc
  au_init_arr len element_size =
      if len == 0
      then ret no_arr
      else if element_size == 0
      then ret no_arr
      else elim (mu_calloc (len * element_size)) [
        | exits ↦ exited
        | _ ↦ ret (record { len = len; elements = []; is_sorted = true })
      ]

  unfoldable pub au_is_full : Arr A → Bool
  au_is_full a = length a.elements == a.len

  unfoldable pub au_is_empty : Arr A → Bool
  au_is_empty a = length a.elements == 0

  -- `false` is the return 0, `true` the error return 1.
  unfoldable pub au_insert : Arr A → A → Arr A × Bool
  unfolding au_is_full
  au_insert a x =
      if au_is_full a
      then (a, true)
      else (record a { elements = a.elements ++ (x ∷ []); is_sorted = false }, false)

  module _ (zero_element : A) where
    -- `none` is the null pointer.
    unfoldable pub au_get : Arr A → ℕ → Option A
    au_get a index =
        if leb a.len index
        then none
        else elim (get_elem? a.elements index) [ none ↦ some zero_element | some x ↦ some x ]

    -- `au_get` at each index below `len`.
    unfoldable pub au_slots : Arr A → List A
    unfolding replicate
    au_slots a = a.elements ++ replicate (a.len - length a.elements) zero_element
