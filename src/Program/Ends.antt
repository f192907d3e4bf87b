-- ===== src/Program/Ends.antt =====
-- The requests that the client program (src/client.c) makes for lists of paths end.
use lso_baldini.Client.{Session, C, lift, ◌>>=◌}
use lso_baldini.Client.Ends.{Ends, end_pure, end_bind, end_if, end_lift, end_write_disk, settled}
use lso_baldini.Client.Ends.Saving.{append-Settles, realloc-Settles, literal-Settles}
use lso_baldini.Client.Loops.{end_path_request, end_read_file, end_write_file}
use lso_baldini.Client.Requests.{open_file, close_file, lock_file, unlock_file, remove_file}
use lso_baldini.Common.{
  ℕ, List, [], ◌∷◌, Bool, true, false, Option, some, not, length, ℤ, pos, is_zero, arith, ◌≢◌, ◌+ℤ◌,
}
use lso_baldini.CString.{Bytes, c_string}
use lso_baldini.Disk.{Buffer}
use lso_baldini.Message.{
  sapi_openfile, sapi_lockfile, sapi_unlockfile, sapi_closefile, sapi_removefile,
}
use lso_baldini.Program.{PathList}
use lso_baldini.Program.Lists.{
  o_create, write_one, write_loop, write_files_list, save_copy, read_one, read_paths,
  read_files_list, each_path, lock_files_list, unlock_files_list, open_and_remove,
  remove_files_list,
}
use lso_baldini.Run.{blocked, settle_bind}
use lso_baldini.UString.{UString, su_string_from_literal, su_append_chars, su_realloc}

module _ {n : ℕ} where
  end_open : (path : Bytes) (flags : ℕ) → Ends n (open_file (some path) flags)
  unfolding open_file
  end_open path flags = end_path_request sapi_openfile flags (some path)

  end_close : (path : Bytes) → Ends n (close_file (some path))
  unfolding close_file
  end_close path = end_path_request sapi_closefile 0 (some path)

  end_lock : (path : Bytes) → Ends n (lock_file (some path))
  unfolding lock_file
  end_lock path = end_path_request sapi_lockfile 0 (some path)

  end_unlock : (path : Bytes) → Ends n (unlock_file (some path))
  unfolding unlock_file
  end_unlock path = end_path_request sapi_unlockfile 0 (some path)

  end_open_and_remove : (path : Bytes) → Ends n (open_and_remove path)
  unfolding open_and_remove remove_file
  end_open_and_remove path =
      end_bind (end_open path 0)
        λ opened. end_bind (end_path_request sapi_removefile 0 (some path)) λ removed. end_pure _

  end_each :
      (request : Bytes → C ℤ) (paths : List Bytes) (res : ℤ)
      → ((path : Bytes) → Ends n (request path))
      → Ends n (each_path request paths res)
  unfolding each_path
  end_each request [] res h = end_pure _
  end_each request (path ∷ paths) res h =
      end_bind (h path) λ answer. end_each request paths (res +ℤ answer) h

  end_write_one : (wbdir : Option Bytes) (path : Bytes) → Ends n (write_one wbdir path)
  unfolding write_one
  end_write_one wbdir path = end_bind (end_open path o_create) λ opened.
      end_if (not (is_zero opened)) (end_pure true) (
        end_bind (end_write_file (some path) wbdir) λ written.
          end_if (not (is_zero written)) (end_pure true)
            (end_bind (end_close path) λ closed. end_pure _))

  end_write_loop :
      (wbdir : Option Bytes) (paths : List Bytes) (res : Bool) → Ends n (write_loop wbdir paths res)
  unfolding write_loop
  end_write_loop wbdir [] res = end_pure _
  end_write_loop wbdir (path ∷ paths) res =
      end_bind (end_write_one wbdir path) λ failed. end_write_loop wbdir paths _

  end_save_copy :
      (destdir path : Bytes) (temp : UString) (buff : Buffer)
      → Ends n (save_copy destdir path temp buff)
  unfolding save_copy
  end_save_copy destdir path temp buff =
      end_bind
        (end_lift _ (λ c.
          settle_bind (su_append_chars c.junk temp destdir) _ (append-Settles c.junk temp destdir)
            (λ d. append-Settles c.junk d path)))
        λ full.
          end_bind (end_write_disk (c_string full.buffer) buff) λ written. end_pure (written, full)

  end_read_one :
      (destdir path : Bytes) (temp : UString) (buff : Buffer)
      → Ends n (read_one destdir path temp buff)
  unfolding read_one
  end_read_one destdir path temp buff = end_bind (end_open path 0) λ opened.
      end_bind (end_read_file (some path) buff) λ result.
        end_bind
          (end_if (is_zero result.0) (end_save_copy destdir path temp result.1)
            (end_pure (pos 1, temp)))
          λ saved. end_bind (end_close path) λ closed.
            end_bind
              (end_lift (λ c. su_realloc c.junk saved.1 0) (λ c. realloc-Settles c.junk saved.1 0))
              λ emptied. end_pure (opened +ℤ saved.0 +ℤ closed, emptied, result.1)

  end_read_paths :
      (destdir : Bytes) (paths : List Bytes) (res : ℤ) (temp : UString) (buff : Buffer)
      → Ends n (read_paths destdir paths res temp buff)
  unfolding read_paths
  end_read_paths destdir [] res temp buff = end_pure _
  end_read_paths destdir (path ∷ paths) res temp buff =
      end_bind (end_read_one destdir path temp buff)
        λ result. end_read_paths destdir paths (res +ℤ result.0) result.1 result.2

-- None of the functions of the client program that make requests for a list of paths goes on for ever, for
-- any list, in any state of the connection and of the disk, if the stream from the server ends.
pub program_lists_end :
    (c : Session) (list : PathList) (wbdir : Option Bytes) (destdir : Bytes)
    → (write_files_list list wbdir c ≢ blocked)
      × (read_files_list list destdir c ≢ blocked)
      × (lock_files_list list c ≢ blocked)
      × (unlock_files_list list c ≢ blocked)
      × (remove_files_list list c ≢ blocked)
unfolding write_files_list read_files_list lock_files_list unlock_files_list remove_files_list
program_lists_end c list wbdir destdir =
    let n = length c.reads in
    (
      settled n _ ((end_write_loop wbdir list.items false).run c (omega arith)),
      settled n _ ((end_read_files destdir list.items).run c (omega arith)),
      settled n _ (
          (end_each (λ path. lock_file (some path)) list.items (pos 0) end_lock).run c
            (omega arith)),
      settled n _ (
          (end_each (λ path. unlock_file (some path)) list.items (pos 0) end_unlock).run c
            (omega arith)),
      settled n _
          ((end_each open_and_remove list.items (pos 0) end_open_and_remove).run c (omega arith)),
    )
  where
    end_read_files :
        {n : ℕ} (destdir : Bytes) (paths : List Bytes)
        → Ends n (
            lift (λ c. su_string_from_literal c.junk []) >>= λ temp.
            read_paths destdir paths (pos 0) temp ([], 0))
    end_read_files destdir paths =
        end_bind (end_lift (λ c. su_string_from_literal c.junk []) (λ c. literal-Settles c.junk []))
          λ temp. end_read_paths destdir paths (pos 0) temp ([], 0)
