-- ===== src/Disk/Laws.antt =====
-- What is read from a file that was written (libs/LSO_LIB/file_utils.c).
use lso_baldini.CString.{Bytes}
use lso_baldini.Common.{
  ℕ, zero, suc, ◌+◌, ◌≤◌, ◌<◌, ◌≡◌, refl, ap, ◌∙◌, [], ◌∷◌, ◌++◌, Bool, true, false, Option, none,
  some, ◌==◌, if◌then◌else◌, length, take, drop, pos, not, ◌&&◌, ℤ, minus_one, eq_ℤ, arith, ==_refl,
  ==_iff, length-append, length-take, length-drop, take-drop, take-all, take-length, append_assoc,
  le_or_gt, inl, inr, ◌&&◌,
}
use lso_baldini.Disk.{
  Disk, DiskFile, Buffer, datachunk, unless_exited, read_chunks, fu_file_read, fu_read_from_path,
  same_path, fu_file_write, fu_write_to_path,
}
use lso_baldini.Memory.{Allocation, exits, null, mu_malloc, mu_realloc, max_request, block}
use lso_baldini.Run.{Settles, settle_bind, settle_if, settle_case, Run, ret, ◌>>=◌}

same_path_refl : (p : Bytes) → same_path p p ≡ true
same_path_refl [] = refl
same_path_refl (x ∷ p) = rw (==_refl x) (same_path_refl p)

realloc-block : (n : ℕ) → n ≤ max_request → 0 < n → mu_realloc n ≡ block
unfolding mu_realloc
realloc-block n small filled = ground (arith, small, filled)

-- The loop that reads a file ends, having read all of it, if no read fails and all of it with a chunk
-- more can be allocated; a round for each byte and one more are enough.
pub read_chunks_lem :
    (fuel k : ℕ) (rest bytes : Bytes)
    → length rest < fuel
    → length bytes + length rest + datachunk ≤ max_request
    → read_chunks fuel (λ _. false) k rest bytes ≡ ret (some (bytes ++ rest))
unfolding read_chunks
read_chunks_lem zero k rest bytes enough small = absurd (omega (arith, enough))
read_chunks_lem (suc fuel) k rest bytes enough small = elim (le_or_gt datachunk (length rest)) [
  | inl full ↦
      let read = take datachunk rest in
      let size : length read ≡ datachunk = length-take datachunk rest full in
      let left : length (drop datachunk rest) + datachunk ≡ length rest =
        omega (arith, length-drop datachunk rest, full) in
      let both : length (bytes ++ read) ≡ length bytes + datachunk =
        omega (arith, length-append bytes read, size) in
      let next =
        read_chunks_lem fuel (k + 1) (drop datachunk rest) (bytes ++ read)
          (omega (arith, left, enough)) (omega (arith, left, both, small)) in
      let all : (bytes ++ read) ++ drop datachunk rest ≡ bytes ++ rest =
        append_assoc bytes read (drop datachunk rest)
        ∙ ap (λ xs. bytes ++ xs) (take-drop datachunk rest) in
      let test : (length read == datachunk) ≡ true = (==_iff (length read) datachunk).1 size in
      let room : mu_realloc (length (bytes ++ read) + datachunk) ≡ block =
        realloc-block (length (bytes ++ read) + datachunk) (omega (arith, both, left, full, small))
          (omega arith) in
      rw (test, room) (next ∙ ap (λ xs. ret (some xs)) all)
  | inr last ↦
      let all : take datachunk rest ≡ rest = take-all datachunk rest (omega (arith, last)) in
      ground (arith, all, last)
]

unless_exited-Settles :
    {A : Type 0} (a : Allocation) (r : Run A) → Settles r → Settles (unless_exited a r)
unless_exited-Settles exits r h = tt
unless_exited-Settles null r h = h
unless_exited-Settles block r h = h

rest_shorter :
    (fuel : ℕ) (rest : Bytes)
    → length rest < suc fuel
    → length (take datachunk rest) ≡ datachunk
    → length (drop datachunk rest) < fuel
rest_shorter fuel rest enough full = elim (le_or_gt datachunk (length rest)) [
  | inl whole ↦ omega (arith, length-drop datachunk rest, whole, enough)
  | inr last ↦ absurd (
      omega (
        arith,
        ap (λ (xs : Bytes). length xs) (take-all datachunk rest (omega (arith, last))),
        last,
        full,
      ))
]

read_chunks-Settles :
    (fuel : ℕ) (fails : ℕ → Bool) (k : ℕ) (rest bytes : Bytes)
    → length rest < fuel
    → Settles (read_chunks fuel fails k rest bytes)
unfolding read_chunks
read_chunks-Settles zero fails k rest bytes enough = absurd (omega (arith, enough))
read_chunks-Settles (suc fuel) fails k rest bytes enough =
    let read = take datachunk rest in
    let next = read_chunks fuel fails (k + 1) (drop datachunk rest) (bytes ++ read) in
    settle_if (fails k) (ret none) _ tt (
      settle_case (length read == datachunk) _ (ret (some (bytes ++ read)))
        (λ full. unless_exited-Settles (mu_realloc (length (bytes ++ read) + datachunk)) next (
          read_chunks-Settles fuel fails (k + 1) (drop datachunk rest) (bytes ++ read)
            (rest_shorter fuel rest enough ((==_iff (length read) datachunk).0 full))))
        tt)

close-Settles :
    (o : Option Bytes) (old : Bytes) (old_len : ℕ) (closes : Bool)
    → Settles (elim o as (λ _. Run (ℤ × Buffer)) [
      | none ↦ ret (minus_one, (old, if length old == 0 then 0 else old_len))
      | some bs ↦
          unless_exited
            (mu_realloc (length bs))
            (ret (if closes then minus_one else pos 0, (bs, length bs)))
    ])
close-Settles none old old_len closes = tt
close-Settles (some bs) old old_len closes = unless_exited-Settles (mu_realloc (length bs)) _ tt

open-Settles :
    (disk : Disk) (path old : Bytes) (old_len : ℕ) (o : Option DiskFile)
    → Settles (elim o as (λ _. Run (ℤ × Buffer)) [
      | none ↦ ret (minus_one, (old, if length old == 0 then 0 else old_len))
      | some f ↦ unless_exited (mu_malloc datachunk) (do
        bytes ← read_chunks (length f.content + 1) f.read_fails 0 f.content []
        elim bytes [
          | none ↦ ret (minus_one, (old, if length old == 0 then 0 else old_len))
          | some bs ↦
              unless_exited
                (mu_realloc (length bs))
                (ret (if disk.close_fails path then minus_one else pos 0, (bs, length bs)))
        ])
    ])
open-Settles disk path old old_len none = tt
open-Settles disk path old old_len (some f) = unless_exited-Settles (mu_malloc datachunk) _ (
    settle_bind (read_chunks (length f.content + 1) f.read_fails 0 f.content []) _
      (read_chunks-Settles _ f.read_fails 0 f.content [] (omega arith))
      (λ o. close-Settles o old old_len (disk.close_fails path)))

-- A read of a file from the disk ends.
pub fu_read_from_path-Settles :
    (disk : Disk) (path : Bytes) (old : Buffer) → Settles (fu_read_from_path disk path old)
unfolding fu_read_from_path fu_file_read
fu_read_from_path-Settles disk path (old, old_len) =
    settle_bind (fu_file_read disk path (old, old_len)) _
      (settle_if (not (length old == 0) && not (old_len == 0)) (ret (minus_one, (old, old_len))) _
        tt (open-Settles disk path old old_len (disk.files path)))
      (λ r. settle_if (eq_ℤ r.0 minus_one) _ _ tt tt)

pub fu_read_from_path-write :
    (disk : Disk) (path bytes : Bytes)
    → disk.opens path ≡ true
    → disk.write_fails path ≡ false
    → disk.close_fails path ≡ false
    → 0 < length bytes
    → length bytes + datachunk ≤ max_request
    → let (result, after) = fu_write_to_path disk path (bytes, length bytes) in
      (result ≡ pos 0) × (fu_read_from_path after path ([], 0) ≡ ret (pos 0, (bytes, length bytes)))
unfolding fu_write_to_path fu_file_write fu_read_from_path fu_file_read mu_malloc mu_realloc
fu_read_from_path-write disk path bytes opens writes closes filled small =
    let loop = read_chunks_lem (length bytes + 1) 0 bytes [] (omega arith) (omega (arith, small)) in
    ground
      (arith, opens, writes, closes, filled, small, same_path_refl path, take-length bytes, loop)
