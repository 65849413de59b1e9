-- ===== src/App/Shared/Progress.antt =====
-- The workers settle the packets that they have, unless they wait for room in a full channel.
use qtun.Base.{◌≡◌, none}
use qtun.Transport.ServerConn.{ServerConn}
use qtun.App.Shared.{Shared, Other}

-- The handler of a ping can register its connection, and gives the mutex back.
abbrev pub Registers : Shared → Type 0
Registers s = (t : Shared) × Other s t × (t.holder ≡ none)
