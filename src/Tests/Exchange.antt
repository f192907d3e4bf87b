-- ===== src/Tests/Exchange.antt =====
-- A file at a concrete path, from its creation to the end of its use.
use lso_baldini.Client.{Session}
use lso_baldini.Exchange.Listing.{SentFile, sent_file, listing}
use lso_baldini.Common.{◌∷◌, ◌++◌, List, []}
use lso_baldini.Exchange.{delivered}
use lso_baldini.Server.World.{World}
use lso_baldini.Storage.PathKey.{path_key}
use lso_baldini.Tests.Client.{session, world, three_bytes}
use lso_baldini.Tests.Files.{start}

-- The server has no file.
abbrev starting : World
starting = record world { storage = start }

-- The server sends one file and ends its list.
abbrev one_sent : List SentFile
one_sent = sent_file 97 [] three_bytes ∷ []

abbrev listening : Session
listening = record session { reads = delivered (listing one_sent) ++ [] }
