-- ===== src/Program/Names.antt =====
-- `conf_add_list` (src/client.c) on names with commas between them.
use lso_baldini.Common.{
  ℕ, zero, suc, ◌+◌, ◌≤◌, ◌<◌, ◌≡◌, refl, List, [], ◌∷◌, ◌++◌, not, some, none, length,
  length-append, arith,
}
use lso_baldini.CString.{Bytes, su_string_compare}
use lso_baldini.ListUtils.{lu_insert}
use lso_baldini.Memory.{max_request}
use lso_baldini.Program.{PathList, strtok, is_comma, mu_clone, add_tokens, conf_add_list}
use lso_baldini.Run.{ret}
use lso_baldini.Stream.Laws.{Passes, span_run, span_all}

-- A name of at least one byte, without a comma, whose copy can be allocated.
abbrev pub IsName : Bytes → Type 0
IsName n = Passes (λ c. not (is_comma c)) n × (0 < length n) × (length n < max_request)

abbrev pub AreNames : List Bytes → Type 0
AreNames [] = Unit
AreNames (n ∷ ns) = IsName n × AreNames ns

-- The names with commas between them.
abbrev pub join : Bytes → List Bytes → Bytes
join n [] = n
join n (m ∷ ns) = n ++ (44 ∷ join m ns)

abbrev pub insert_all : List Bytes → PathList → PathList
insert_all [] list = list
insert_all (n ∷ ns) list = insert_all ns (lu_insert su_string_compare list n)

strtok_name : (n rest : Bytes) → IsName n → strtok is_comma (n ++ (44 ∷ rest)) ≡ some (n, rest)
unfolding strtok
strtok_name [] rest (h, p, l) = absurd (omega (arith, p))
strtok_name (c ∷ n) rest (h, p, l) =
    ground (arith, span_run (λ x. not (is_comma x)) n 44 rest h.1 refl)

strtok_last : (n : Bytes) → IsName n → strtok is_comma n ≡ some (n, [])
unfolding strtok
strtok_last [] (h, p, l) = absurd (omega (arith, p))
strtok_last (c ∷ n) (h, p, l) = ground (arith, span_all (λ x. not (is_comma x)) n h.1)

clone_name : (n : Bytes) → IsName n → mu_clone n ≡ ret n
unfolding mu_clone
clone_name n (h, p, l) = ground arith

strtok_end : strtok is_comma [] ≡ none
unfolding strtok
strtok_end = refl

add_tokens-join :
    (n : Bytes) (ns : List Bytes) (list : PathList) (fuel : ℕ)
    → AreNames (n ∷ ns)
    → length ns + 2 ≤ fuel
    → add_tokens fuel (join n ns) list ≡ ret (insert_all (n ∷ ns) list)
unfolding add_tokens
add_tokens-join n ns list zero h l = absurd (omega (arith, l))
add_tokens-join n ns list (suc zero) h l = absurd (omega (arith, l))
add_tokens-join n [] list (suc (suc fuel)) (h, _) l =
    rw (strtok_last n h, add_tokens) (rw (clone_name n h) (rw (strtok_end, add_tokens) refl))
add_tokens-join n (m ∷ ns) list (suc (suc fuel)) (h, hs) l =
    rw (strtok_name n (join m ns) h, add_tokens)
      (rw (clone_name n h) (
        add_tokens-join m ns (lu_insert su_string_compare list n) (suc fuel) hs (omega (arith, l))))

join-ge : (n : Bytes) (ns : List Bytes) → AreNames (n ∷ ns) → length ns + 1 ≤ length (join n ns)
join-ge n [] (h, _) = omega (arith, h.1)
join-ge n (m ∷ ns) (h, hs) = omega (arith, length-append n (44 ∷ join m ns), join-ge m ns hs, h.1)

-- conf_add_list inserts each of the names that stand in its argument with commas between them, in their
-- order, if each has at least a byte, no comma, and a copy that can be allocated.
pub conf_add_list-join :
    (n : Bytes) (ns : List Bytes) (list : PathList)
    → AreNames (n ∷ ns)
    → conf_add_list (join n ns) list ≡ ret (insert_all (n ∷ ns) list)
unfolding conf_add_list
conf_add_list-join n ns list h =
    add_tokens-join n ns list (length (join n ns) + 1) h (omega (arith, join-ge n ns h))
