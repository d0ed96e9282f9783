-- ===== src/Lib.antt =====
-- Termwire: a payment terminal (POS) and the cash register (ECR) that drives it, over a protocol of
-- frames with protobuf messages in them.
--
-- The parts. A frame (protocol/protocol.go) carries a message (protocol/termwire.pb.go). The
-- terminal's server reads frames and hands their messages to the message handler (pos/handler.go),
-- which runs the card reader (pos/card.go) and the transaction manager (pos/transaction.go). The
-- manager keeps the active transactions in memory and the settled ones in a SQLite database
-- (pos/db.go); reports are read from that database. The register's payment flow (ecr/payment.go) makes
-- the calls of its API (ecr/api.go), each of which is one request and one response of its client
-- (ecr/client.go) over the same frames.
--
-- The files.
--   Common: Boolean tests, lists, machine words, exclusive or.
--   Go: what the code uses of Go's fmt, time and maps. Decimal takes 20 rounds, since 2 ^ 64 has 20
--     digits; the month of a day is found in 11 steps, since December ends the year.
--   Crc32: hash/crc32's ChecksumIEEE, bit by bit.
--   Frame: Frame, IsValid, CalculateCRC32, NewFrame, CalculateLength, Serialize, ParseFrame of
--     protocol/protocol.go; Frame/Reader: ReadFrame, over the bytes that are still to come; and what
--     they do together in Frame/RoundTrip, Frame/Parse, Frame/Agreement and Frame/Corruption.
--   Message: the messages of protocol/termwire.pb.go; Message/Codec: protobuf's encoding of one.
--   Pos/Config, Pos/Card: pos/config.go and pos/card.go.
--   Pos/Transaction, Pos/Manager: TransactionState, Transaction and TransactionManager of
--     pos/transaction.go with the operations on active transactions, from CreateTransaction to
--     FailTransaction, each a function from state to state with its result; Pos/Manager/Restart:
--     NewTransactionManager and openDB; Pos/Manager/Statistics: GetStatistics and the counts.
--   Pos/Db: the tables of pos/db.go, insertCompleted and scanTransaction.
--   Pos/Settled: GetCompletedTransactionByID, SetCachedResponse, VoidTransaction, RefundTransaction;
--     Pos/Settled/Race: a refund that another connection's void or refund comes between.
--   Pos/Report: the X, Z and detailed reports.
--   Pos/Handler: HandleMessage and its handlers, in Pos/Handler/Payment, Pos/Handler/Service and
--     Pos/Handler/Dispatch; payments that are accepted in Pos/Handler/Approval and Pos/Handler/Retry,
--     and that are declined in Pos/Handler/Decline; a payment from its first request to the database in
--     Pos/Handler/Settles; two requests for one payment that meet in its pause in Pos/Handler/Race.
--     Pos/Handler/Promise states, apart from the code, what a response grants and what a row holds.
--   Pos/Schedule: requests of several connections, some of them in the pause of processPayment.
--   Pos/Server: what a frame of a client does, from handleFrame to sendFrame of pos/server.go;
--     Pos/Server/Session: handleClientMessages, the loop of one connection over the bytes of its client.
--     Its fuel is one more than the bytes, since each round takes a byte. Pos/Server/Table: the table
--     of connections and the idle check, which runs as one step. Pos/Server/Lifecycle: NewServer,
--     Start, Stop and GetStats. Pos/Command: the settings that pos/cmd/main.go takes from the
--     environment.
--   Pos/Ledger: the database as a ledger, in which rows stay and change along few steps. Pos/Ledger/Acts:
--     the manager's operations as steps, the handlers as runs of them, and their interleavings;
--     Pos/Ledger/Interleaved: the ledger along those; Pos/Ledger/Receipts: the receipt numbers.
--   Ecr/Config: ecr/config.go. Ecr/Client: the client of ecr/client.go, with its connection in
--     Ecr/Client/Stream; SendMessage's loop runs over its own rounds, one more than the retries.
--   Ecr/Api: the calls of ecr/api.go, two of them through the whole stack
--     in Ecr/Api/Voiding and Ecr/Api/Paying.
--   Ecr/Payment: ExecutePayment of ecr/payment.go, one step of the flow a function; Ecr/Receipt:
--     PrintReceipt, as lines.
--
-- What comes from outside. Clock readings, random draws and failures of the database's statements are
-- arguments, a value of its own for each call site. Protobuf's encoding is the parameter Codec, of
-- which only that decoding undoes encoding is used. A panic of the code is a reply of its own.
--
-- Concurrency. A handler of Pos/Handler runs alone. Pos/Schedule lets the handlers of several connections
-- meet in the pause of processPayment, each of its steps a message that arrives or a pause that is
-- over. In Pos/Ledger/Acts everything meets: what the connections do is, for the manager, an
-- interleaving of the operations that its mutex or the database makes atomic, where the two
-- statements of a refund are two steps.
--
-- Not modelled: sockets, the accept loop and the ticker (pos/server.go), goroutines, logging, what
-- pos/cmd/main.go does besides its settings, the examples, and the SQLite engine beyond its tables. What
-- the network does in a round of the register's client is an argument of the round, and so is what
-- it does to Start.
pub mod Common
pub mod Go
pub mod Crc32
pub mod Frame
pub mod Message
pub mod Pos
pub mod Ecr
