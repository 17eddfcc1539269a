-- ===== src/EchoLoop/Stale.antt =====
-- What the server for out-of-band data writes back.
use network_ex.Common.{◌<◌, none, some, List, [], ◌∷◌, Bool, true, false, length}
use network_ex.Common.Bytes.{Bytes, NulFree}
use network_ex.EchoLoop.Servers.{buf_size}
use network_ex.EchoLoop.Urgent.{Turn, read_over}

-- Each text with the end of the answer before it that it does not reach.
abbrev pub stale : Bytes → List Bytes → List Bytes
stale before [] = []
stale before (text ∷ texts) = let now = read_over before text in now ∷ stale now texts

-- A string that leaves room for its NUL.
abbrev pub Fits : Bytes → Type 0
Fits s = NulFree s × (length s < buf_size)

-- Every `write` would take what it is given.
abbrev pub sends : Bytes → Turn
sends text = record { block = some text; writes = true }

-- What follows the texts, without a block: nothing yet, or the end or an error and whatever is behind.
pub data Ending : Type 0 where
  silent ended broken : Ending

abbrev pub turns_of : Ending → List Turn
turns_of silent = []
turns_of ended = record { block = some []; writes = true } ∷ []
turns_of broken = record { block = none; writes = true } ∷ []

abbrev pub is_closed : Ending → Bool
is_closed silent = false
is_closed ended = true
is_closed broken = true
