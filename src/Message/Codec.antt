-- ===== src/Message/Codec.antt =====
-- `proto.Marshal` and `proto.Unmarshal` of google.golang.org/protobuf, for one type of message: a
-- parameter, with its documented behaviour that a message is read back from its own encoding.
use termwire.Common.{ℕ, ◌≡◌, List, Option, some}

pub record Codec (A : Type 0) : Type 0 where
  pub marshal : A → Option (List ℕ)
  pub unmarshal : List ℕ → Option A
  pub unmarshal-marshal : (a : A) (b : List ℕ) → marshal a ≡ some b → unmarshal b ≡ some a
