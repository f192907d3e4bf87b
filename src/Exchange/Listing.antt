-- ===== src/Exchange/Listing.antt =====
-- `readNFiles` (src/serverapi.c) on the list of files that the server sends (src/server.c).
use lso_baldini.Client.ReadMany.{save_one}
use lso_baldini.Client.{Session, C, pure, ◌>>=◌, lift}
use lso_baldini.Common.{
  ℕ, ◌+◌, ◌^◌, ◌≤◌, ◌<◌, ◌≡◌, ◌≢◌, List, [], ◌∷◌, Option, some, none, pos, minus_one, length, arith,
  ℤ, if◌then◌else◌, ◌==◌, eq_ℤ,
}
use lso_baldini.CString.{Bytes, c_string, strlen}
use lso_baldini.Disk.{Disk, fu_write_to_path}
use lso_baldini.Exchange.Asking.{get_data_lem}
use lso_baldini.Exchange.{wire}
use lso_baldini.Memory.{max_request}
use lso_baldini.Run.{◌>>=◌ as bind_run, Run, ret, exited, Ensures}
use lso_baldini.Server.World.{Frame}
use lso_baldini.UString.{UString, su_append_chars, su_realloc}

-- The files that are sent: a path of at least a byte that does not begin with a NUL, and a content of at
-- least a byte, each small enough to be allocated.
pub data SentFile : Type 0 where
  sent_file : (first : ℕ) (path content : Bytes) → SentFile

abbrev pub IsSendable : SentFile → Type 0
IsSendable (sent_file first path content) =
    (first ≢ 0)
    × (length path + 2 ≤ max_request)
    × (0 < length content)
    × (length content ≤ max_request)

abbrev pub AllSendable : List SentFile → Type 0
AllSendable [] = Unit
AllSendable (f ∷ fs) = IsSendable f × AllSendable fs

-- What the server sends: each path and each content with its length before it, and the length 0 at the
-- end.
abbrev pub listing : List SentFile → List Frame
listing [] = Frame.size 0 ∷ []
listing (sent_file first path content ∷ fs) =
    Frame.size (length (first ∷ path))
    ∷ Frame.payload (first ∷ path)
    ∷ Frame.size (length content)
    ∷ Frame.payload content
    ∷ listing fs

-- The call does not return.
abbrev Lost : {A : Type 0} → Run A → Type 0
Lost r = Ensures (λ _. ⊥) r

-- A file is saved, or not; either way its length is what is left of it.
saved :
    (c : Session) (dest content : Bytes) (size : ℕ) (rest : List (Option Bytes))
    → c.reads
      ≡ some (wire (Frame.size (length content))) ∷ some (wire (Frame.payload content)) ∷ rest
    → 0 < length content
    → length content ≤ max_request
    → size < 2 ^ 64
    → (k : ℕ) × (disk : Disk) × (save_one dest size c
        ≡ ret ((k, length content), record c { reads = rest; disk = disk }))
unfolding save_one
saved c dest content size rest next filled small known =
    let received = get_data_lem c [] content size rest next filled small known in
    let (result, disk) = fu_write_to_path c.disk dest (content, length content) in
    ((if eq_ℤ result minus_one then 0 else 1), disk, ground (arith, received))

-- What a round does with the path `bytes`, and then `next`.
abbrev round : (ℕ → UString → ℕ → C ℤ) → Bytes → Bytes → ℕ → UString → ℕ → C ℤ
round next dirname bytes count dest size = do
  full ← lift λ c.
      bind_run (su_append_chars c.junk dest dirname)
        (λ d. su_append_chars c.junk d (c_string bytes))
  saved ← save_one (c_string full.buffer) size
  emptied ← lift λ c. su_realloc c.junk full 0
  next (count + saved.0) emptied saved.1

-- A round behind the path.
abbrev path_read : (ℕ → UString → ℕ → C ℤ) → Bytes → ℕ → UString → ℕ → Option Bytes → C ℤ
path_read next dirname count dest size none = λ _. exited
path_read next dirname count dest size (some bytes) =
    if strlen (c_string bytes) == 0
    then pure (pos count)
    else round next dirname bytes count dest size
