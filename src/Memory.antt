-- ===== src/Memory.antt =====
-- The allocation wrappers (libs/LSO_LIB/mem_utils.c). A request of more than 4 MiB ends the
-- process, and so does a failure of the system's allocator, which is not modelled.
use lso_baldini.Common.{ℕ, ◌^◌, ltb, if◌then◌else◌, ◌≡◌, refl, ◌⊎◌, inl, inr}

pub data Allocation : Type 0 where
  exits null block : Allocation

abbrev pub max_request : ℕ
max_request = 2 ^ 22

unfoldable pub mu_malloc : ℕ → Allocation
mu_malloc size = if ltb max_request size then exits else if ltb 0 size then block else null

unfoldable pub mu_realloc : ℕ → Allocation
mu_realloc size = if ltb max_request size then exits else if ltb 0 size then block else null

unfoldable pub mu_calloc : ℕ → Allocation
mu_calloc size = if ltb max_request size then exits else if ltb 0 size then block else null

pub allocation-cases : (a : Allocation) → (a ≡ exits) ⊎ ((a ≡ null) ⊎ (a ≡ block))
allocation-cases exits = inl refl
allocation-cases null = inr (inl refl)
allocation-cases block = inr (inr refl)
