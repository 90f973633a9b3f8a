-- ===== src/Lib.antt =====
-- Vertix: the chain's own modules, x/fees, x/rwa and x/oracle, on the Cosmos SDK.
--
-- The program. Vertix is a proof-of-stake chain. x/oracle collects the price feeds of the
-- validators and publishes a median at the end of each vote window; x/rwa registers real-world
-- assets, whose issuers lock a bond, have the asset attested by an oracle price, mint tokens
-- against it, and settle; x/fees burns a share of the collected fees at the end of each block. They
-- meet in the bank: x/rwa restricts who may be sent an asset's token, x/fees moves the fees of
-- every transaction, those that x/rwa collects included.
--
-- The files. `Base` has what all share: tests on native numbers, integers, byte strings, results,
-- the ordered maps that stand for one prefix of a store, Go's `int64` and `sort.Slice`. `Sdk` is
-- what the modules take from the Cosmos SDK and `cosmossdk.io/math`, none of it in this repository:
-- a record of operations, and records of the laws that the theorems rely on; `Sdk/Model` fills both
-- with concrete functions. `Pattern` is the two regular expressions.
--
-- `Fees` models x/fees: `Params` types/params.go, `Keeper` keeper/keeper.go, msg_server.go and
-- grpc_query.go, `EndBlock` keeper/abci.go and invariants.go, `Genesis` keeper/genesis.go; `Chain`
-- is the life of the module from genesis on.
--
-- `Rwa` models x/rwa: `Types`, `Keys` and `Messages` the package types and keeper/denom.go,
-- `Keeper` keeper/keeper.go, `Restriction` keeper/restriction.go and send_restriction.go, `Funds`
-- keeper/bond.go and fee.go, `Server` keeper/msg_server.go (`Register`, `Tokens`, `Closing`: a
-- function for each handler, named as the handler), `Invariants` keeper/invariants.go, `Genesis`
-- types/genesis.go, keeper/genesis.go and the iterators that it uses, `Queries`
-- keeper/grpc_query.go. The children named `Passing` say what has passed when a handler has
-- succeeded; `Sound` is the invariant of escrow and supplies, step by step (`Handlers`), over any
-- steps (`Chain`), with the crisis invariants (`Crisis`) and the life of an asset (`Lifecycle`).
--
-- `Oracle` models x/oracle: `Types` and `Keys` the package types, `Keeper` keeper/keeper.go,
-- `Feeder` keeper/feeder.go, `Server` keeper/msg_server.go, `Aggregate` keeper/aggregate.go, `Twap`
-- keeper/twap.go, `EndBlock` keeper/abci.go, `Invariants` keeper/invariants.go, `Genesis`
-- types/genesis.go and keeper/genesis.go, `Queries` keeper/grpc_query.go.
--
-- `Daemon` models the feeder daemon, feeder/feeder: `Aggregate` aggregate.go, `Cache` cache.go,
-- `Config` config.go, `PriceLoop` priceloop.go, `SubmitLoop` submitloop.go, `Broadcaster` the
-- messages of broadcaster.go. Its two loops share the cache, whose lock makes each method one step:
-- a round of the price loop is a function of what the providers answer, a poll of the submit loop a
-- function of the height, the cache and what the broadcaster answers.
--
-- `Wiring` puts the modules together as app/app_config.go does: the oracle keeper that x/rwa asks
-- for a price is the keeper of x/oracle.
--
-- How the code is read. A handler takes the state and returns the new state or an error; an error
-- or a panic of a message undoes the transaction, so no state comes with it. A store prefix is an
-- ordered map from keys to values; the protobuf encoding of the values, and the errors of the store
-- itself, are left out. A decimal is the integer that the SDK stores, in units of 10^-18; a
-- `math.Int` is an integer, without the SDK's bound of 256 bits. A `math.LegacyDec` has at most 315
-- bits, and an operation beyond them panics. That is modelled where one price can bring it about in
-- the end blocker, in the division by the reference median; the other divisions there are of
-- `int64`s, and the distance of two positive decimals fits. Elsewhere it is left out: so the
-- products and sums of GetTWAP, which overflow for prices above about 2^268 of the smallest
-- decimals, are taken as exact. `sdk.NewCoin` also panics on a malformed denom, which is left out:
-- the denoms are constants or built from a slug. An `int64` that is added keeps its
-- wrap-around. A time is a number of nanoseconds. The bank is its balances and supplies. The staking
-- keeper does not change within a block, and a call of the slashing keeper is recorded. All loops
-- are structural, so there is no fuel.
--
-- Not modelled: the daemon's providers, signing, metrics and start, the rest of the application's
-- wiring (app/, cmd/), generated code (api/, *.pb.go), simulation and tools. Of the daemon's
-- providers only the answers of a round are an argument. The pagination of AssetsByIssuer is the
-- SDK's, and a parameter.
pub mod Base
pub mod Sdk
pub mod Pattern
pub mod Fees
pub mod Rwa
pub mod Oracle
pub mod Daemon
pub mod Wiring
