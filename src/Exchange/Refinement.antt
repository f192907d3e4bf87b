-- ===== src/Exchange/Refinement.antt =====
-- What client library (src/serverapi.c) and handlers (src/server.c) promise together, without mutexes,
-- counters and buffers: files with an owner and a content.
use lso_baldini.Common.{
  ◌++◌, sym, ap, ◌∙◌, ℕ, ap, ◌∙◌, sym, ◌==◌, if◌then◌else◌, ℤ, Option, some, none, minus_one,
}
use lso_baldini.CString.{Bytes}
use lso_baldini.Server.World.{World}
use lso_baldini.Storage.PathKey.{path_key}
use lso_baldini.Storage.{FileData, Storage}

-- The abstract state: the owner and the content of each file. A file is at the address that its paths
-- lead to; nobody's file has the owner -1.
abbrev pub Files : Type 0
Files = ℕ → Option (ℤ × Bytes)

abbrev pub file_of : Option FileData → Option (ℤ × Bytes)
file_of none = none
file_of (some f) = some (f.client, f.content)

abbrev pub files : Storage → Files
files s p = file_of (s.heap p)

-- The abstract operations.
abbrev pub closed : Files → ℕ → Files
closed m p q = if p == q then elim (m p) [ none ↦ none | some e ↦ some (minus_one, e.1) ] else m q

abbrev pub replaced : Files → ℕ → Bytes → Files
replaced m p bytes q =
    if p == q then elim (m p) [ none ↦ none | some e ↦ some (e.0, bytes) ] else m q

abbrev pub appended : Files → ℕ → Bytes → Files
appended m p bytes q =
    if p == q then elim (m p) [ none ↦ none | some e ↦ some (e.0, e.1 ++ bytes) ] else m q
