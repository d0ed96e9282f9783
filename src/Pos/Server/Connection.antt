-- ===== src/Pos/Server/Connection.antt =====
-- ClientConnection: the sequence number of the server's own frames, and the bytes written so far.
use termwire.Common.{ℕ, ◌+◌, u16, List, ◌++◌}

pub record Client : Type 0 where
  pub sequence : ℕ
  pub written : List ℕ

abbrev pub write : List ℕ → Client → Client
write bytes c = record c { written = c.written ++ bytes }

abbrev pub next_sequence : Client → Client
next_sequence c = record c { sequence = u16 (c.sequence + 1) }
