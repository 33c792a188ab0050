-- ===== src/Lib.antt =====
-- lightsql: a small embeddable SQL engine in Go that speaks the PostgreSQL dialect.
--
-- A connection (driver) hands a statement to the engine (internal/engine), which scans and parses it
-- (internal/scanner, internal/parser, internal/ast), binds it against the catalog (internal/binder,
-- internal/catalog, internal/plan) and runs the plan (internal/exec, internal/builtin) inside a
-- transaction (internal/storage) over values (internal/types). A commit writes the transaction's
-- records to the write-ahead log (internal/wal), from which a restart rebuilds the database.
--
-- Which file models which part:
--
--   Common          numbers, lists, byte strings, integers with their decimal text, the varints and
--                   words of encoding/binary, and the SQLSTATE codes of internal/pgerr/pgerr.go. An
--                   error is its code: messages carry no behaviour.
--   Types           internal/types. Bool3 is bool3.go; Word is Go's int64 and uint64; Value is the
--                   struct and the kinds of value.go.
--   Types.Overflow, Types.Numeric
--                   decimal_value.go: `add_no_overflow` and its siblings, then the two
--                   representations of a decimal in a Value and the arithmetic on both.
--   Types.Decimal   decimal.go: a big.Int is an integer; a scale, an int32 that is not negative, is a
--                   natural number, taken below 2^31.
--   Types.Decimal.Text
--                   how decimal.go prints a decimal.
--   Types.Division  decimal_parse.go: Div and the scale that it chooses. `none` is a panic.
--   Types.Float, Types.Compare
--                   value.go: the order of values, SQL's comparisons, and what Hash writes. Floats are
--                   an interface, Types.Float.
--   Types.Bytea     bytea.go. The loop of parseEscape, which looks ahead in its text, is a machine that
--                   takes one byte at a time.
--   Types.Codec     codec.go: a value in the log. ParseJSONB of json.go is a parameter.
--   Wal             internal/wal. Record and Codec are the records of record.go and their encoding,
--                   Frame the frames of log.go, and Log its Open, Replay and Write. The file is the
--                   list of its bytes; the checksum, and what becomes of a write and of a flush, are
--                   parameters. Checkpoint is its Checkpoint, with every directory on the way.
--   Storage.Txn     internal/storage/txn.go: `begin`, `finish`, `take`, `committed_in` and `horizon`
--                   are Begin, finish, Take, Snapshot.committed and Horizon. The maps of the manager
--                   are a function (status) and a list without duplicates (active).
--   Storage.Heap    internal/storage/heap.go: `visible`, `insert`, `load`, `delete`, `scan`, `vacuum`.
--                   A pointer to a version is its index in the heap's slice.
--   Storage.Tx      internal/storage/tx.go and journal.go: `begin_tx`, `next_statement`, `commit`,
--                   `rollback`, `log`, `log_now`, `rename_logged`, `forget_logged`, `flush`. What is
--                   behind the Journal interface is a parameter, `write`.
--   Token, Scanner  internal/token and internal/scanner. Lexeme has the loops over the bytes that are left,
--                   Scanner the state and one function for each method. strings.ToLower is a parameter.
--   Ast             internal/ast/ast.go: the expressions, without positions.
--   Parser          internal/parser. The parser's state is the list of the tokens that are left; the root has
--                   the methods of parser.go that look at a token or take one. TypeName, Prefix, Infix
--                   and Expr are expr.go, one function for each method, its switches by clauses.
--                   parseQuery is a parameter.
--   Builtin.Keys    internal/builtin/aggregate.go: KeySet and KeyCounts, over any keys.
--   Builtin.Aggregate
--                   the accumulators of aggregate.go. `none` is a panic; Cast is a parameter.
--   Catalog         internal/catalog/catalog.go. Unique is checkUnique with the buckets of checkUniqueOver,
--                   References the check of the foreign keys, both over lists of rows. The hash and the
--                   predicate compiler are parameters. Row is checkRow and fitNumeric, and Table the table over its
--                   heap: `insert_row`, `update_row`, `delete_row`, `load_row`, `rows`, `set_missing`,
--                   `restore_sequences` and `next_serial`.
--   Exec            internal/exec. An operator is what it gives when it is drained: its rows, and the
--                   error that ends them. SetOp is setop.go; Join, Stream, Sort and Group are the operators
--                   of exec.go: joins, then filters, projections, LIMIT and DISTINCT, then ORDER BY, whose
--                   slices.SortStableFunc is a stable insertion sort, and grouping. Conflict is the
--                   search of conflict.go, and runChecks. Eval has the
--                   closures of expr.go, Expr the bound expressions of internal/plan, Subquery what a
--                   subquery makes of its rows, and Compile is compile. Casts, JSON, regular expressions,
--                   scalar functions and the rows of a subplan are an interface, Calls.
--   Engine          internal/engine/persist.go: `apply`, `recover` and the records of Checkpoint. The
--                   catalog and the statements that recovery runs are an interface, Schema.
--
-- Conventions. A Go string or byte slice is a list of bytes. Transaction ids and row ids are uint64:
-- issuing one wraps at 2^64, and the theorems that need a fresh id ask for room. Every operation of
-- txn.go and of heap.go holds one mutex from start to end, so an interleaving of connections is a
-- sequence of whole operations; the relations `Reach` and `Others` are such sequences. BeginTx calls
-- three of them, and what others do in between is an argument of `begin_tx`.
--
-- Bounds. The loop of Replay takes at most one round more than the log has bytes, and that many are
-- given. A uint64 takes at most ten bytes as a varint, and the loops of the varints have ten rounds.
-- Each token takes a byte at least, and Tokens is given one round more than the text has bytes. Each
-- call of parseExpr takes a token, and it is given one unit of fuel more than there are tokens.
--
-- Not modelled: the lock of the log directory (internal/wal/lock*.go) and closing the log, the
-- database/sql driver, the shell (cmd/lightsql), the feature matrix (internal/features), and, so far,
-- the binder and the plans (internal/binder, internal/plan but for its expressions), the statements and queries
-- of the parser, and the casts, JSON and temporal text of internal/types.
pub mod Common
pub mod Types
pub mod Wal
pub mod Storage
pub mod Ast
pub mod Builtin
pub mod Catalog
pub mod Engine
pub mod Exec
pub mod Parser
pub mod Scanner
pub mod Token
