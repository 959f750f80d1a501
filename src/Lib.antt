-- ===== src/Lib.antt =====
-- The gas relay signer, a Go service that relays the signed transactions of users ("metatx") to a
-- hub contract from the account of a writer node. This library models the part that decides when
-- and whether a metatx is sent, what is given back when it ends, and the bus that shows what
-- happened.
--
-- The parts and how they interact. A request comes through the router (controller/router.go) to one
-- of two doors, the JSON-RPC one (controller/processController.go) and POST /relay
-- (controller/endpoints.go). Both prepare the metatx in the same way (service/prepare.go): it is
-- decoded, its suffix is checked (service/validation.go, which service/metatx.go reads) and its
-- sender is looked up in the contract of rules (service/permissioning.go). It passes the door of
-- the cap (service/reorder.go), waits for its turn (service/reorder_turn.go) and is sent; the nonce
-- tracker (service/tracker.go) holds the chains of nonces in flight and the registry of the metatx
-- that wait, both under one lock. What was sent is remembered (service/correlation.go) until it is
-- settled, by the client that waits or by the watcher (service/settle.go, service/watcher.go),
-- which gives its place back to the tracker. POST /relay waits for the receipt itself
-- (service/relay.go); the JSON-RPC client asks for it later (service/relaySignerService.go). Every
-- line of the log also goes through the bus (events/events.go).
--
-- The files:
--   Base, Base/*       shared names, tests, lists, keys, 64-bit integers, lists of identities
--   Config             model/Config.go: the blocks that the modelled code reads
--   Loader, Loader/*   model/RuntimeConfig.go: LoadRuntimeBlocks, LoadValidationBlocks and the readers of
--                      single keys; Loader/Settings says which values are of use for a key
--   Audit, Audit/*     audit/structured.go: emit, write, InitStructured; flatten in Audit/Flatten
--   Service/Rejection  service/prepare.go: Rejection with its code, cause and details
--   Service/Tracker    service/tracker.go: nonceEntry is Chain, heldMetaTx is HeldMetaTx, and the
--                      fields that sendersLock guards are Tracker
--     Tracker/Registry   hold, unhold, waitTurnLocked, stopWaitingLocked, notifyTurnLocked,
--                        wakeLocked, evictHeldLocked, highestHeldLocked
--     Tracker/Chains     chainLocked, reserveLocked, releaseChain, forgetChain, pendingOf,
--                        inflightLocked; cachedNonce, invalidateNonce, incrementTransactionCount and
--                        senderKey of service/relaySignerService.go
--     Tracker/History    any order of these operations
--   Service/Reorder    service/reorder.go: makeRoomFor, surplusHeld, expectedNonce
--   Service/Locks      lockUser of service/reorder.go, as what happens when requests come and go
--   Service/Turn       service/reorder_turn.go: awaitTurn
--   Service/MetaTx     service/metatx.go: DecodeGasModelSuffix, ExpirationSeconds
--   Service/Validation service/validation.go: validateGasModelSuffix and its checks; ExpirationFloor
--                      of model/RuntimeConfig.go
--   Service/Settle     service/correlation.go, claimSettled and releaseSent of
--                      service/settle.go, inFlight and expireOne of service/watcher.go
--   Service/Watcher    SettleInFlight of service/watcher.go
--   Service/HubLog     transactionRelayedFailed, badTransactionErrorCode and errorCodeName of
--                      service/relaySignerService.go, and the switch over the topics of the hub
--   Service/Outcome    readHubEvents of service/settle.go
--   Service/Handout    service/handout.go: HandOutNonce as steps, closeTicket, closeOpenTicket
--   Service/Send       sendReordered and noteSent of service/reorder.go, reserveGasAndSend of
--                      service/prepare.go, VerifyGasLimit, increment, decrement and sendPrepared of
--                      service/relaySignerService.go
--   Service/Revert     decodeRevertReason, decodeKnownCustomError and knownCustomErrors of
--                      service/relaySignerService.go; none is a panic
--   Service/Result     GetMetaTxResult and GetTransactionReceipt of service/relaySignerService.go
--   Service/Permissioning  service/permissioning.go: accountRules is AccountRules, and what rulesMutex
--                      guards is Permits; resolveRules, AccountPermitted, checkNodePermitted
--   Service/Prepare    PrepareMetaTx of service/prepare.go, GetTransaction of service/transaction.go,
--                      txdata of model/RawTransaction.go
--   Service/Decoded    DecodedFields of service/prepare.go and its copy in controller/processController.go
--   Service/Relay      service/relay.go: RelayAndWait, waitForReceipt, decodeRelayResult, IsHexData;
--                      ReserveGasAndSend of service/prepare.go
--   Service/Nonce      service/nonce.go: NonceOf; HandOutNonce of service/handout.go as one request sees
--                      it; GetTransactionCount of service/relaySignerService.go
--   Service/Info       service/info.go: Info, ticketMsInEffect
--   Service/Start      Init of service/relaySignerService.go
--   Service/Blocks     ProcessNewBlocks and nextBackoff of service/relaySignerService.go
--   Controller/Doors   processRawTransaction of controller/processController.go, Relay and detailsOf
--                      of controller/endpoints.go
--   Controller/Dispatch  SignTransaction of controller/relayController.go, the methods of rpc/json.go, and
--                      the handlers of controller/processController.go
--   Controller/Reads   Nonce and peekRequested of controller/endpoints.go, pathParam of
--                      controller/router.go
--   Controller/Router  controller/router.go: Routes, onlyMethod, Handler, withCORS, matchOrigin
--   Events             events/events.go: Bus, Publish, Replay, ReplayAndSubscribe and its cancel
--   Dashboard          dashboard/dashboard.go: Stream, startingPoint, send
--   Errors             errors/errors.go: New, Wrapf, AddErrorContext and the getters
--   Examples           the theorems at concrete states
--
-- How state is modelled. The section of code under a lock is one function from a state to a state;
-- goroutines interleave between such functions: Tracker/History and Events/History take them in any
-- order, and Turn/Leaves lets any sound function of the tracker run while a metatx sleeps. A
-- pointer that the code compares is a number: the identity of a chain, an index of the entries, a
-- channel. A nil map reads as an empty one. A map that is ranged over is a list, in the order in
-- which it is ranged over. A close of a closed channel, and a send on one, set `panicked`.
--
-- Numbers. A nonce, a sequence number and an expiration are uint64 and wrap; seconds and remaining
-- times of the checks are int64 and wrap. Times are nanoseconds of one clock that has no end, and
-- durations do not wrap. Counts of metatx are unbounded. Texts are bytes; ToLower is that of ASCII.
-- An address is the number that its bytes spell. The text of an error is a constructor with the
-- numbers it prints, but in Errors and Service/Start, where it is bytes, and a line of the log
-- carries what the modelled code decides.
--
-- Bounds and fuel. A wait takes the rounds of its environment as a list; the list is long enough
-- with one round more than there are expected nonces still to be seen below the nonce of the
-- metatx. The loop over new blocks takes its passes as a list, and has not returned where the list
-- ends first. The wait for a receipt takes its polls as a list, and gives none while the list lasts
-- only. All other functions recurse on lists or on the size of the ring.
--
-- Parameters. What the library of the node unpacks from the bytes of a log is a function in Hub.
-- RLP, the recovery of the sender and the text of an address are Codec; how a text is read as an
-- address is AddressText, and what the node says of the contract of rules is RulesNode. Source is
-- what viper has under a key, by its Go type, and Surroundings what the start asks for. The path
-- that the mux of the language makes clean, and the bodies that encoding/json reads, are arguments.
-- The answer of the node is a value of HubRead, GasRead, SendRead or Receipt; the address of this
-- node is a Result, and the clock is an argument of each call.
--
-- Panics. The reason that Outcome and Result carry for a call that reverted is its output, of which
-- decodeRevertReason makes the text in Revert, or panics. Each loop over the logs of a receipt
-- stops at such a log: Outcome and Result give no answer then, with the state at the panic,
-- net/http recovers the request, and in the goroutine of the new blocks it ends the process.
--
-- Not modelled: the reading and writing of JSON and of HTTP bodies, the page of the monitor, the
-- writers of the process and the line relay.received, the client of the node, the signing of the
-- transaction that wraps a metatx, the panic on a node that gives no gas limit, and the blocks of
-- the configuration that a library decodes as a whole. The generated bindings and the copy of sha3
-- are other projects' code.
pub mod Audit
pub mod Base
pub mod Config
pub mod Controller
pub mod Dashboard
pub mod Errors
pub mod Events
pub mod Examples
pub mod Loader
pub mod Service
