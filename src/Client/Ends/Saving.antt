-- ===== src/Client/Ends/Saving.antt =====
-- Rules for the loops that save files from the server (src/serverapi.c).
use lso_baldini.Common.{
  ℕ, zero, suc, ◌+◌, ◌<◌, [], Option, none, some, ◌==◌, if◌then◌else◌, length, pos, minus_one,
  arith, not, eq_ℤ,
}
use lso_baldini.CString.{Bytes, c_string, strlen}
use lso_baldini.Disk.{Buffer}
use lso_baldini.Memory.{mu_malloc, mu_realloc, Allocation, exits, null, block}
use lso_baldini.Message.{sapi_evict as evict_answer, sapi_readnfiles}
use lso_baldini.Run.{Settles, settle_bind, settle_if, ret, exited, ◌>>=◌ as bind_run}
use lso_baldini.UString.{
  UString, su_string_from_literal, su_append_chars, su_string_extend, su_realloc,
}
use lso_baldini.Client.{sapi_get_response, sapi_get_path}
use lso_baldini.Client.Ends.{
  limit_le, limit_bind, Ends, end_pure, end_bind, end_if, end_exited, end_lift, end_is_connected,
  end_write_disk,
}
use lso_baldini.Client.Ends.Calls.{
  end_sendop, end_senddatalen, end_get_response, end_get_path, end_get_data, get_response_shorter,
  get_path_shorter, end_path_end,
}
use lso_baldini.Client.ReadMany.{save_one, read_loop, read_n_files}
use lso_baldini.Client.Eviction.{slash, saved_path, save_file, evict_rounds, sapi_evict}

allocation-Settles :
    (a : Allocation) (s : UString) → Settles (elim a [ exits ↦ exited | _ ↦ ret s ])
allocation-Settles exits s = tt
allocation-Settles null s = tt
allocation-Settles block s = tt

pub literal-Settles : (junk : ℕ) (literal : Bytes) → Settles (su_string_from_literal junk literal)
unfolding su_string_from_literal
literal-Settles junk literal = allocation-Settles (mu_malloc (strlen literal + 1)) _

pub realloc-Settles : (junk : ℕ) (s : UString) (n : ℕ) → Settles (su_realloc junk s n)
unfolding su_realloc
realloc-Settles junk s n = allocation-Settles (mu_realloc (n + 1)) _

pub append-Settles :
    (junk : ℕ) (s : UString) (literal : Bytes) → Settles (su_append_chars junk s literal)
unfolding su_append_chars su_string_extend
append-Settles junk s literal =
    settle_bind (su_string_extend junk s (strlen literal)) _
      (settle_if (strlen literal == 0) (ret s) _ tt
        (realloc-Settles junk s (s.len + strlen literal)))
      (λ t. tt)

saved_path-Settles :
    (junk : ℕ) (dest : UString) (dirname path : Bytes) → Settles (saved_path junk dest dirname path)
unfolding saved_path
saved_path-Settles junk dest dirname path =
    settle_bind _ _
      (settle_bind (su_append_chars junk dest dirname) (λ d. su_append_chars junk d slash)
        (append-Settles junk dest dirname) (λ d. append-Settles junk d slash))
      (λ d. append-Settles junk d path)

end_save_file : {n : ℕ} (dest : Bytes) (old : Buffer) → Ends n (save_file dest old)
unfolding save_file
end_save_file dest old = end_bind (end_get_data old) λ data_read.
    end_if (not (eq_ℤ data_read.0 (pos 0))) (end_pure data_read.1)
      (end_bind (end_write_disk dest data_read.1) λ _. end_pure data_read.1)

end_evict_rounds :
    (fuel n : ℕ) (dirname : Bytes) (dest : UString) (old : Bytes) (buffer : Buffer)
    → n < fuel
    → Ends n (evict_rounds fuel dirname dest old buffer)
unfolding evict_rounds
end_evict_rounds zero n dirname dest old buffer enough = absurd (omega (arith, enough))
end_evict_rounds (suc fuel) zero dirname dest old buffer enough = end_bind end_get_response λ m.
    end_if (not (m == evict_answer)) (end_pure (pos 0)) (end_path_end old _ (end_pure minus_one))
end_evict_rounds (suc fuel) (suc n) dirname dest old buffer enough = record {
  run = λ c h. limit_le n (suc n) _ (omega arith) (
      limit_bind n (sapi_get_response c) _ (get_response_shorter n c h) λ m.
        (end_if (not (m == evict_answer)) (end_pure (pos 0)) (
          end_bind (end_get_path old) (elim [
            | none ↦ end_pure minus_one
            | some bytes ↦
                end_bind
                  (end_lift (λ c'. saved_path c'.junk dest dirname (c_string bytes))
                    (λ c'. saved_path-Settles c'.junk dest dirname (c_string bytes)))
                  λ full. end_bind (end_save_file (c_string full.buffer) buffer) λ data_read.
                    end_bind
                      (end_lift (λ c'. su_realloc c'.junk full 0)
                        (λ c'. realloc-Settles c'.junk full 0))
                      λ emptied.
                        end_evict_rounds fuel n dirname emptied bytes data_read
                          (omega (arith, enough))
          ]))).run);
}

pub end_sapi_evict : {n : ℕ} (dirname : Bytes) → Ends n (sapi_evict dirname)
unfolding sapi_evict
end_sapi_evict dirname =
    end_bind (end_lift (λ c. su_string_from_literal c.junk []) (λ c. literal-Settles c.junk []))
      λ dest. end_bind (end_senddatalen 1) λ failed. end_if failed (end_pure minus_one) (record {
        run = λ c h. limit_le (length c.reads) _ _ h (
            (end_evict_rounds (length c.reads + 1) (length c.reads) dirname dest [] ([], 0)
                (omega arith)).run
              c (omega arith));
      })

end_save_one : {n : ℕ} (dest : Bytes) (size : ℕ) → Ends n (save_one dest size)
unfolding save_one
end_save_one dest size = end_bind (end_get_data ([], size)) λ data_read.
    end_if (eq_ℤ data_read.0 minus_one) (end_pure (0, data_read.1.1)) (
      end_bind (end_write_disk dest data_read.1)
        λ written. end_pure (if eq_ℤ written minus_one then 0 else 1, data_read.1.1))

end_read_loop :
    (fuel n : ℕ) (dirname : Bytes) (count : ℕ) (dest : UString) (size : ℕ)
    → n < fuel
    → Ends n (read_loop fuel dirname count dest size)
unfolding read_loop
end_read_loop zero n dirname count dest size enough = absurd (omega (arith, enough))
end_read_loop (suc fuel) zero dirname count dest size enough = end_path_end [] _ end_exited
end_read_loop (suc fuel) (suc n) dirname count dest size enough = record {
  run = λ c h. limit_le n (suc n) _ (omega arith) (
      limit_bind n (sapi_get_path [] c) _ (get_path_shorter n [] c h) (elim [
        | none ↦ λ c' h'. tt
        | some bytes ↦
            (end_if (strlen (c_string bytes) == 0) (end_pure (pos count)) (
              end_bind
                (end_lift
                  (λ c'.
                    bind_run (su_append_chars c'.junk dest dirname)
                      (λ d. su_append_chars c'.junk d (c_string bytes)))
                  (λ c'.
                    settle_bind (su_append_chars c'.junk dest dirname) _
                      (append-Settles c'.junk dest dirname)
                      (λ d. append-Settles c'.junk d (c_string bytes))))
                λ full. end_bind (end_save_one (c_string full.buffer) size) λ saved.
                  end_bind
                    (end_lift (λ c'. su_realloc c'.junk full 0)
                      (λ c'. realloc-Settles c'.junk full 0))
                    λ emptied.
                      end_read_loop fuel n dirname (count + saved.0) emptied saved.1
                        (omega (arith, enough)))).run
      ]));
}

pub end_read_n_files :
    {n : ℕ} (count : ℕ) (dirname : Option Bytes) → Ends n (read_n_files count dirname)
unfolding read_n_files
end_read_n_files count none = end_pure _
end_read_n_files count (some dirname) = end_if (count == 0) (end_pure (pos 0)) (
    end_bind end_is_connected λ connected. end_if (not connected) (end_pure minus_one) (
      end_bind (end_sendop count sapi_readnfiles 0) λ failed. end_if failed (end_pure minus_one) (
        end_bind (end_lift (λ c. su_string_from_literal c.junk []) (λ c. literal-Settles c.junk []))
          λ dest. record {
            run = λ c h. limit_le (length c.reads) _ _ h (
                (end_read_loop (length c.reads + 1) (length c.reads) dirname 0 dest 0
                    (omega arith)).run
                  c (omega arith));
          })))
