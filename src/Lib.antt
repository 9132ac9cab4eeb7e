-- ===== src/Lib.antt =====
-- async-hyperliquid: an asynchronous client of the Hyperliquid exchange, in Python.
--
-- The program has a facade (src/async_hyperliquid/client.py) over two clients: the exchange client
-- (exchange.py) signs actions and posts them, and the info client (info.py) reads markets. Both share
-- one HTTP transport (_internal/http.py). The metadata index (_internal/metadata.py) turns coin names
-- into asset ids and sizes; order encoding (_internal/encoding.py) turns an order into the numbers
-- and texts that are signed (_internal/signing.py).
--
-- The files and what they model, with paths under src/async_hyperliquid:
--   Result: errors.py. `Error` has a constructor for each exception, and `other` for what the
--     library neither raises nor handles, such as a cancellation. `Result` is the outcome of code
--     that may raise; `>>=` stops at the first exception.
--   Float: Python's `float` by value. The order, `math.isfinite` and `is_integer` are exact.
--     Rounding, parsing, arithmetic and the shortest decimal are the fields of `FloatOps`.
--   Json, Dict: JSON values as received and posted, and dictionaries in insertion order.
--   Text: decimal texts, with the readers that the theorems are stated with in Text/Digits and
--     Text/Decimals.
--   Order: types/common.py and the orders of types/exchange.py, with `Cloid` in Order/Cloid.
--   Types: the typed dictionaries, literals and unions of types/exchange.py (Types/Actions,
--     Types/Envelope, Types/Replies) and of types/info.py (the other children), each a `Schema`, with
--     a test of the values that have it. A type that refers to itself takes the depth to which it is
--     written out. Response/Typed and Exchange/Typed are about what is posted and read, by these types.
--     Exchange/Signed is about the fields that the user-signed methods sign.
--   Encoding: _internal/encoding.py. Amount: the token amounts of _internal/exchange.py.
--   Response: `expect_action_response` of _internal/exchange.py; Response/Grammar describes the
--     replies independently.
--   Metadata: _internal/metadata.py, by market kind: Perps, Spot and Lookup; Resolves and Built are
--     about a finished index.
--   Signing: _internal/signing.py, with the EIP-712 field lists in Signing/Specs; Signing/Preimage is
--     about the bytes that are hashed.
--   World: the state: the transport, the cached metadata, the last nonce, the number of readings of
--     the clock, and the requests posted. World/Exec is the monad of the methods: an exception keeps
--     the changes made before it.
--   Transport: _internal/http.py. Transport/Lifecycle runs it over sequences of calls.
--   Exchange: exchange.py. Submission stands in Exchange, the methods in Exchange/Trading,
--     Exchange/Transfers and Exchange/Outcomes, and the JSON of orders in Exchange/Encode.
--     Exchange/Commands has one constructor for each method, and runs it.
--   Info: _internal/info.py, with `wait_for_tasks` in Info/Tasks and Info/Group, and info.py
--     in the other children:
--     Info/Client makes a client and asks, Info/Account and Info/Market are the endpoints,
--     Info/Metadata is the cache with its lookups, and Info/Prices reads prices and positions.
--     Info/Queries and Info/Lookups are about what a method that only asks may change.
--     Info/Cache is the metadata cache again, as steps of several calls that interleave: a call is where
--     it waits, and a step takes it to its next wait. Its children are about the lock and the snapshots
--     (Phases, Moves and Safety), the end of the calls (Ends) and one call by itself (Alone).
--     Info/Settled is about groups of tasks, Info/Typed and its children about the endpoints by their
--     declared types.
--   Client: client.py. The checks, the pricing and the encoding of orders stand in Client, the methods
--     in Client/Orders, Client/Manage and Client/Positions. Client/Commands has one constructor for
--     each method but `open` and `close`, and runs it; Client/Checks, Client/Validation, Client/Prices,
--     Client/Encoded, Client/Closing, Client/Typed and Client/Nonces are about orders and about runs of
--     methods.
--   Release: scripts/extract_release_notes.py of the root: Release/Headings, Release/Lines and
--     Release/Extract are its functions, with markdown-it as the argument `parse`. Release/Extracted
--     describes independently what a changelog gives for a version.
--   Examples: a concrete configuration and interpreter, with the model run on them in its children.
--
-- The code outside the repository is the record `Externals`: aiohttp's outcomes, the clock, msgpack,
-- keccak, the account's key and the address functions. A method is one step: nothing runs between the
-- drawing of a nonce and the post in the source, as no await stands between them; that further calls
-- may start before the reply of one is read is modelled for the metadata cache alone. There, the lock
-- may go to any call that waits for it, and asyncio's order is one of these. Loops are recursion on
-- their lists; `print` recurses on fuel above its number, which has fewer digits, and a client order
-- id on its width.
--
-- A group of tasks (`wait_for_tasks`) is modelled twice. Info/Group has the tasks end in any order, and
-- cancels those that run when one fails or the call is cancelled. Info/Tasks, which the methods use, runs
-- them to their ends one after the other: each posts its one request at its first step, before the
-- failure of another is seen, so that a cancelled task has sent its request too. Which failure is raised
-- when several tasks fail is the field `first_failure` of `Externals`.
--
-- `close` takes how `await session.close()` ends, as it may be interrupted. Reading a missing key of a
-- reply gives `none`: that the source never indexes a key it has not tested is not shown.
--
-- Not modelled: the logging, the tests, the benchmarks and the configuration of the documentation.
pub mod Amount
pub mod Client
pub mod Dict
pub mod Encoding
pub mod Examples
pub mod Exchange
pub mod Float
pub mod Info
pub mod Json
pub mod Metadata
pub mod Order
pub mod Prelude
pub mod Release
pub mod Response
pub mod Result
pub mod Signing
pub mod Text
pub mod Transport
pub mod Types
pub mod World
