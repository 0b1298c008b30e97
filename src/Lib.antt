-- ===== src/Lib.antt =====
-- eth-research: Go programs and packages around Ethereum 2: the schedule of block proposers,
-- keys and signatures over BLS12-381, a wallet with a keymanager, a server and a client of
-- routes over gRPC, an rpc server and client over a local endpoint, and the byte, file, random
-- and flag helpers that these use. This library models that code and proves what makes its parts
-- correct.
--
-- Parts and files.
--
-- Base: names of the libraries, and what the parts share. Base/Go has Go's panics (`Outcome`)
-- and its `(value, error)` pairs (`Result`); Base/Dict has Go maps as association lists, read by
-- `lookup`; Base/Lists, Base/Bits, Base/Int and Base/Text have slices, bits, int64 and strings.
--
-- Bytes: bytesutil/bytes.go. Bytes/Integers has the conversions between integers and bytes
-- (ToBytes, BytesN, FromBytes8, ToLowInt64 and the Uint64 functions), Bytes/Slices the
-- fixed-size arrays and copies, with the capacity of a slice where `append` depends on it,
-- Bytes/Bitlists SetBit, ClearBit, HighestBitIndex and HighestBitIndexAt. A byte slice is a list
-- of naturals; a uint64 keeps its wrap-around. Indices of bits are not negative.
--
-- Epoch: epoch-extractor/main.go. Epoch/Assignments has processNextEpochAssignments, the two
-- maps of an epoch; Epoch/Schedule logProposerSchedule and checkCompatibility; Epoch/Runner the
-- `Client` and the iterations of `runner`, where the answers of the beacon node are arguments.
-- The logged lines are values. `runner` runs over a list of ticks, so it ends. Epoch/Start is
-- `main`, with ConstructDialOptions; the packages of gRPC are a parameter (`Grpc`). DivSlot of
-- eth2-types is a parameter that can panic.
--
-- Bls: bls/herumi and bls/signature_set.go. Bls/Herumi is the library of herumi, a parameter.
-- Bls/Keys has public keys in cells of a store, because Aggregate changes a key in place, and
-- the cache of public keys as a map to cells that may miss an entry and may drop a new one, as
-- ristretto does; secret keys are values. Bls/Signatures has verification and aggregation; the
-- random numbers are an argument. Bls/Signatures/Aggregated has the equations of pairings
-- (`Pairing`) over which aggregates of valid signatures are valid.
--
-- Files: fileutil/fileutil.go over a host (Files/System), a parameter: the environment, paths,
-- the state of the disk and its calls. Files/Trees has CopyDir, DirFiles, HashDir and DirsEqual;
-- the hash and its encodings are parameters.
--
-- Wallet: wallet/wallet.go (Wallet, Wallet/Kinds, Wallet/Opening), which calls fileutil, and
-- wallet/keymanager.go (Wallet/Keymanager), which calls bls/herumi and bytesutil. The package's
-- variables orderedPublicKeys and secretKeysCache are the record `Caches`. Its locks are held
-- over whole loops and lookups, so each operation is one step. Wallet/Keymanager/Shared has two
-- keymanagers, one after the other. JSON, hex, the keystore decryptor and the hash of a slot are
-- parameters (`Codec`); Wallet/Slots is wallet/types.go, with that hash over package rlp and
-- Keccak; Wallet/Slots/Hashes has which slots share one.
--
-- Program: main.go, which composes the wallet, its keymanager, and the signing and verifying of
-- a slot. Program/Whole has how it ends on a wallet with two keys, Program/Few on one with
-- fewer.
--
-- Route: route_guide/server/server.go. Route has the four calls of the server, Route/Data its
-- example features, Route/Server the server with its state and its answers to requests,
-- Route/Stream a whole chat, Route/Sends its sends; Route/Listing, Route/Summary and Route/Chat
-- what is proved of the calls. RouteChat appends and copies under a lock, so the notes of all
-- chats come one after the other; Route/Chats has many chats at once as a step relation, one
-- action of one chat at a time, with the lock and with what is appended as the index of a run.
-- Route/Hosting is `main` of the server. The distance of two points is computed in floats and is
-- a parameter. Route/Client is route_guide/client/client.go over a record of what the generated
-- client answers; Route/Client/Journey fills that record with the server's calls;
-- Route/Client/Dialing is `main` of the client.
--
-- Rand: rand/rand.go over a reader of the system.
--
-- Flags: simple_rpc/utils. The order and the category of command line flags (helpers.go),
-- expandPath (customflags.go), which calls what fileutil has, and the grouping in the help
-- printer of simple_rpc/main.go. Flags/Directory has the flag of a directory (customflags.go)
-- and the default directory (defaults.go).
--
-- Orchestrator: the commands of simple_rpc/main.go with simple_rpc/api/api.go,
-- simple_rpc/ipc-client and MigrateFlags of simple_rpc/utils/flags.go. The rpc package is a
-- parameter (`Rpc`). Orchestrator/Session has a server until it is interrupted, with the clients
-- that run before and after.
--
-- Samples: golang_test. Samples/WaitGroup has the workers of waitgroup.go as a step relation,
-- one action of one of them at a time, and Samples/Generator so the generator and the loop of
-- simple_context.go; Samples/Scan has the check of scan.go, Samples/Recover the deferred calls
-- of DeferPanicRecover.go; Samples/Service the service of goroutine.go.
--
-- Fuel: CopyDir takes as much as its source has levels, `g` of Samples/Recover and DecodeRLP
-- take one for each nested call. All other loops recurse on lists or on an index that goes down.
--
-- Not modelled: the generated code of the route guide, the rpc package of simple_rpc (adapted
-- from go-ethereum) with the validation messages of its api, the templates and texts of the
-- commands of simple_rpc, the loggers, and testutil (copied from Prysm). The cryptography
-- itself, package rlp and Keccak are libraries that the repository does not hold.
--
-- Each Examples module runs the code on small inputs and applies the theorems there. The small
-- library of keys in Bls/Examples and the small host in Files/Examples are only for that.
pub mod Base
pub mod Bls
pub mod Bytes
pub mod Epoch
pub mod Files
pub mod Flags
pub mod Orchestrator
pub mod Program
pub mod Rand
pub mod Route
pub mod Samples
pub mod Wallet
