-- ===== src/Lib.antt =====
-- A verification library for DTNEX, the agent that exchanges contacts, ranges and metadata between
-- DTN nodes that run ION.
--
-- A node announces its own contacts and ranges, and metadata about itself, to its neighbours, in
-- signed CBOR messages. A node that receives such a message authenticates it, drops what it has
-- seen or must not believe, writes what it learns into the contact plan of ION, and forwards the
-- message to its own neighbours. The parts, with their files:
--
-- - Base: equality tests, lists over native numbers, signed numbers and their 64-bit patterns.
-- - Types: the structures of dtnex.h and ion_contacts.h.
-- - Nonce: `isNonceDuplicate` and `addNonceToCache` of dtnex.c; Nonce.History relates the cache to
--   everything that was added.
-- - Cbor: `manualDecodeCborInteger`, `manualDecodeCborString`, `skipCborElement` of dtnex.c;
--   Cbor.Format is the wire format of RFC 8949, Cbor.Library the contract of ION's cbor.h, and
--   Cbor.Consumed what the readers leave.
-- - Hmac: `calculateHmac` and `verifyHmac` of dtnex.c.
-- - Message: `writeCborEnvelope`, `appendCborHmac` and the three `encodeCbor...Message` of dtnex.c.
-- - Extract and Decode: `decodeCborMessage` of dtnex.c up to the verification of the tag.
-- - Validate: the checks of `processCborContactMessage` and `processCborRangeMessage` of dtnex.c.
-- - Plans and Metadata: `getplanlist`, `updateNodeMetadata` and `parseNodeMetadata` of dtnex.c.
-- - Ion: ion_contacts.c, over an abstract ION. Ion.Contacts and Ion.Ranges have the functions that
--   find, announce and apply, Ion.Status the checks, and Ion.Trace an ION that records its calls.
-- - Node: the receiving node. Node.Forward has the three `forwardCbor...Message` and Node.Process
--   the rest of `decodeCborMessage`, the three `processCbor...Message` and `processCborMessage`.
-- - Network: several such nodes with the bundles under way between them. Network.Flooding has the runs
--   in which bundles are delivered in any order, lost and announced, Network.Travel the way of one
--   contact through any nodes, and Network.Coverage the runs in which one message is passed on to
--   the end.
-- - Announce: `refreshMyContacts`, `refreshMyRanges` and `exchangeWithNeighbors` of dtnex.c, with the
--   static variables they keep.
-- - Config: `loadConfig` of dtnex.c, from the bytes of dtnex.conf, and the flags that `main` reads.
-- - Connection: `tryConnectToIon`, `init` and `sendCborBundle` of dtnex.c, by the calls they make.
-- - Service: the threads `runBundleReception` and `runBpechoService` of dtnex.c.
-- - MainLoop: `eventDrivenLoop` of dtnex.c with `getContacts`, `checkIonStatus` and `restartDtnex`;
--   MainLoop.Main has `main` up to the end of the loop.
-- - Threads: one process, in which the turns of the reception and of the main loop follow each other
--   in any order over the shared cache of `getplanlist`, the shared address book and the shared ION.
-- - Shutdown: `signalWaitThread`, `stopBundleReception` and the end of `main` of dtnex.c.
-- - Graph: the files that `createGraph` and `updateNodeMetadata` of dtnex.c write.
-- - Tests: concrete libraries and nodes, runs of the code, and the theorems at these inputs.
--
-- The state of a node is the record `Node`: the nonce cache, the address book, the plan cache, the
-- state of ION, and the calls of `sendCborBundle` so far. An operation takes the state and returns
-- it. A buffer with its count of bytes is a list of numbers below 256; a C string is the list of
-- bytes before its zero. An unsigned 64-bit field is a natural number with its bound written out; a
-- `time_t` is an integer, and goes through its 64-bit pattern on the wire. A failure is `none`.
--
-- A buffer of the code has a size and its list here has none: the theorems that read a metadata
-- message back have the 128 bytes of its buffer as a condition, and the others take a longer one as
-- written whole. What memory holds that nothing has written is a parameter:
-- the last bytes of the configuration's texts, and the buffers that bundles are read into.
--
-- Parameters are the libraries: ION's CBOR functions, OpenSSL's HMAC-SHA256, ION's indexes and its
-- `rfx_*` calls, the operations on `float`, and the formatting of coordinates. What the theorems
-- use of them is named: `IsCborEncoder`, `IsCborDecoder`, `IsCborCursor`, `IsUvast`, `IsSha256`,
-- `IsTolerant`, `KeepsContacts` and, for the plans of a network, `Links`; the tests have an instance
-- of each. Every loop is a recursion on a list or on a count, so there is no fuel.
-- The calls of the C library on texts (`fgets`, `strtok`, `strncpy`, `strtol`) are written out as they are used; `atof` is a parameter.
--
-- The threads and the main loop take what the clock, ION and the other threads give them turn by
-- turn: a run is a list of turns, and a theorem about every list covers every order of these
-- events. Where the code calls ION directly, what the calls return is a record of answers and the
-- calls are recorded, so that a small machine can check that they come in an order ION allows.
--
-- The bundle protocol between the nodes is what the network's steps say of it: a bundle arrives as it
-- was sent, at the node it is addressed to, or is lost. A message is handled in one step of its
-- node: what the reception thread does for it is on state of its own, but for the cache of plans, which
-- has a mutex, ION, whose calls are transactions, and the address book, which has no guard: that the
-- writes of two threads to it do not meet is a condition.
--
-- Not modelled: logging, and the insides of ION, OpenSSL and the C library. The clock and the
-- nonces are inputs.
pub mod Base
pub mod Nonce
pub mod Cbor
pub mod Types
pub mod Plans
pub mod Metadata
pub mod Validate
pub mod Hmac
pub mod Message
pub mod Extract
pub mod Decode
pub mod Ion
pub mod Node
pub mod Network
pub mod Announce
pub mod Config
pub mod Service
pub mod Connection
pub mod MainLoop
pub mod Threads
pub mod Shutdown
pub mod Graph
pub mod Tests
