-- ===== src/Client/Ends/Calls.antt =====
-- Rules for the calls of the client library (src/serverapi.c) that read from or write to the
-- connection.
use mathlib.Core.Path.{subst}
use lso_baldini.Common.{
  ℕ, suc, ◌+◌, ◌≤◌, ◌≡◌, refl, ap, sym, List, [], ◌∷◌, true, Option, none, some, ◌==◌,
  if◌then◌else◌, length, take, ℤ, pos, minus_one, arith, ◌++◌, not, ◌-◌, ◌%◌, ◌^◌, ◌||◌, replicate,
}
use lso_baldini.CString.{Bytes}
use lso_baldini.Disk.{Buffer}
use lso_baldini.Memory.{mu_realloc, Allocation, exits, null, block}
use lso_baldini.Run.{ret, blocked, exited, fault}
use lso_baldini.UString.{resize, copy_at}
use lso_baldini.Message.{sapi_message_len}
use lso_baldini.Server.World.{Frame, overwrite, le_decode}
use lso_baldini.Client.{
  uninit_word, Session, C, pure, ◌>>=◌, read, sapi_sendop, sapi_senddatalen, sapi_senddata,
  sapi_get_response, grow_path, sapi_get_path, get_block, sapi_get_data,
}
use lso_baldini.Client.Ends.{
  Within, limit_bind, Ends, end_pure, end_bind, end_if, end_exited, end_read, read_end, end_write,
  end_is_connected,
}

pub end_sendop : {bound : ℕ} (len op flags : ℕ) → Ends bound (sapi_sendop len op flags)
unfolding sapi_sendop
end_sendop len op flags = end_bind end_is_connected λ connected.
    end_if (not connected) (end_pure true)
      (end_write (Frame.status (sapi_message_len flags op len)))

pub end_senddatalen : {bound : ℕ} (datalen : ℕ) → Ends bound (sapi_senddatalen datalen)
unfolding sapi_senddatalen
end_senddatalen datalen =
    end_bind end_is_connected
      λ connected. end_if (not connected) (end_pure true) (end_write (Frame.size datalen))

pub end_senddata : {bound : ℕ} (buffer : Buffer) → Ends bound (sapi_senddata buffer)
unfolding sapi_senddata
end_senddata (bytes, datalen) = end_if (length bytes == 0 || datalen == 0) (end_pure true) (
    end_bind end_is_connected λ connected.
      end_if (not connected) (end_pure true) (end_write (Frame.payload (take datalen bytes))))

pub end_get_response : {bound : ℕ} → Ends bound sapi_get_response
unfolding sapi_get_response
end_get_response =
    end_bind {m = uninit_word} (record { run = λ c h. h })
      λ old. end_bind (end_read 4) λ bytes. end_pure _

end_grow_path : {bound : ℕ} (n : ℕ) (old : Bytes) → Ends bound (grow_path n old)
unfolding grow_path
end_grow_path {bound} n old =
    elim (mu_realloc ((n + 1) % 2 ^ 64))
      as (λ a. Ends bound (λ c. elim a [
        | exits ↦ exited
        | null ↦ fault
        | block ↦ ret (copy_at n (0 ∷ []) (resize c.junk (n + 1) old), c)
      ])) [
        | exits ↦ record { run = λ c h. tt }
        | null ↦ record { run = λ c h. tt }
        | block ↦ record { run = λ c h. h }
      ]

end_path_of :
    {bound : ℕ} (len old : Bytes)
    → Ends bound (
        if overwrite 0 len == 0 then pure none else do
          buffer ← grow_path (overwrite 0 len) old
          bytes ← read (overwrite 0 len)
          pure (elim bytes [ none ↦ none | some bs ↦ some (copy_at 0 bs buffer) ]))
end_path_of len old = end_if (overwrite 0 len == 0) (end_pure none) (
    end_bind (end_grow_path (overwrite 0 len) old)
      λ buffer. end_bind (end_read (overwrite 0 len)) λ bytes. end_pure _)

pub end_get_path : {bound : ℕ} (old : Bytes) → Ends bound (sapi_get_path old)
unfolding sapi_get_path
end_get_path old =
    end_bind (end_read 8) (elim [ none ↦ end_pure none | some len ↦ end_path_of len old ])

end_get_block : {bound : ℕ} (n : ℕ) (old : Bytes) → Ends bound (get_block n old)
unfolding get_block
end_get_block {bound} n old = end_if (n == 0) (end_pure _) (go (mu_realloc n))
  where
    received : C (ℤ × Buffer)
    received = do
      bytes ← read n
      pure (elim bytes [
        | none ↦ (minus_one, (replicate n 0, n))
        | some bs ↦ (pos 0, (bs ++ replicate (n - length bs) 0, n))
      ])

    go : (a : Allocation) → Ends bound (elim a [ exits ↦ λ _. exited | _ ↦ received ])
    go exits = end_exited
    go null = end_bind (end_read n) λ bytes. end_pure _
    go block = end_bind (end_read n) λ bytes. end_pure _

pub end_get_data : {bound : ℕ} (buffer : Buffer) → Ends bound (sapi_get_data buffer)
unfolding sapi_get_data
end_get_data (old, datalen) =
    end_bind (end_read 8)
      (elim [ none ↦ end_pure _ | some bs ↦ end_get_block (overwrite datalen bs) old ])

-- At the end of the stream no path arrives.
pub get_path_end : (old : Bytes) (c : Session) → c.reads ≡ [] → sapi_get_path old c ≡ ret (none, c)
unfolding sapi_get_path le_decode
get_path_end old c e = ground (arith, read_end 8 c e)

read_shorter :
    (k n : ℕ) (c : Session) (rs : List (Option Bytes))
    → length c.reads ≤ suc n
    → c.reads ≡ rs
    → Within n (elim rs [
      | [] ↦ ret (some [], c)
      | r ∷ rs ↦ ret (elim r [ none ↦ none | some bs ↦ some (take k bs) ], record c { reads = rs })
    ])
read_shorter k n c [] h e = omega (arith, ap (λ (xs : List (Option Bytes)). length xs) e)
read_shorter k n c (r ∷ rs) h e = omega (arith, h, ap (λ (xs : List (Option Bytes)). length xs) e)

-- After the first of its reads, at most one less is left.
pub get_response_shorter :
    (n : ℕ) (c : Session) → length c.reads ≤ suc n → Within n (sapi_get_response c)
unfolding sapi_get_response
get_response_shorter n c h =
    limit_bind n (read 4 c) _ (read_shorter 4 n c c.reads h refl) λ bytes c' e. e

pub get_path_shorter :
    (n : ℕ) (old : Bytes) (c : Session) → length c.reads ≤ suc n → Within n (sapi_get_path old c)
unfolding sapi_get_path
get_path_shorter n old c h =
    limit_bind n (read 8 c) _ (read_shorter 8 n c c.reads h refl)
      (elim [ none ↦ λ c' e. e | some len ↦ (end_path_of len old).run ])

nil_of : (c : Session) (rs : List (Option Bytes)) → c.reads ≡ rs → length c.reads ≤ 0 → c.reads ≡ []
nil_of c [] e h = e
nil_of c (r ∷ rs) e h = absurd (omega (arith, h, ap (λ (xs : List (Option Bytes)). length xs) e))

-- At the end of the stream no path arrives.
pub end_path_end :
    {A : Type 0} (old : Bytes) (k : Option Bytes → C A)
    → Ends 0 (k none)
    → Ends 0 (sapi_get_path old >>= k)
end_path_end old k h = record {
  run = λ c e.
      subst
        (λ x.
          Within 0
            (elim x [ ret (a, c') ↦ k a c' | blocked ↦ blocked | exited ↦ exited | fault ↦ fault ]))
        (sym (get_path_end old c (nil_of c c.reads refl e))) (h.run c e);
}
