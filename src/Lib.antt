-- ===== src/Lib.antt =====
-- A model of Dot1xCP, a credential provider of the Windows logon screen. A helper process, the broker,
-- authenticates the machine's network port and sends its results over a named pipe, one JSON object a
-- message. The provider starts the broker, polls the pipe from the logon screen's calls, and turns a
-- success into a serialized credential.
--
-- The parts, and the files that model them:
--   Base                the shared library: lists and numbers
--   Json                src/broker/ProviderJson.cpp: `ParseJsonLine` with what it calls. Chars (`SkipWs`,
--                       `Trim`, `HexValue`), Utf8 (`AppendUtf8`), Unescape (`UnescapeJsonString`), Token
--                       (`ParseJsonQuotedToken`), Message (`ParseFlatBrokerMessage`, `ParseJsonLine`). A
--                       position in a string is the suffix that starts there.
--   State               the global variables of src/core/Provider.cpp, src/core/ProviderCore.cpp and
--                       src/broker/ProviderBrokerSession.cpp as one record, with a trace of the effects
--   Flags, Refresh      src/core/Provider.cpp: the flags, delayed refreshes, the events object.
--                       Refresh.Threads is the same code once more as a step relation, in which any number
--                       of threads and timer callbacks interleave, one access to shared memory at a time; its
--                       Follow, Alone and Calls relate the two models
--   Broker              src/broker/ProviderBrokerSession.cpp: `WaitAndCloseBrokerProcess`,
--                       `ResetBrokerSession`, `CloseBrokerSessionNow`
--   Auth                src/auth/SerializationAuth.cpp: `ResolveNegotiate`, `ResolveMsv` and their cache
--   Packing             src/auth/Serialization.cpp: `PackKerb`, `PackMsv`, `PackAutoEx`
--   Environment         src/broker/ProviderPipe.cpp: `BuildChildEnvironmentWithPipe`; Launch:
--                       `LaunchBroker`
--   Transport           src/broker/ProviderPipeTransport.cpp: `WaitPipeClientConnect`,
--                       `ReadPipeMessageWithTimeout`, `ReadPipeMessageUntilDone`; Pipe: `MakePipeName`,
--                       `CreateRestrictedPipeServer`
--   Util                src/common/ProviderUtil.cpp: `DupSysAlloc`, `Widen`, `NtStatusToText`,
--                       `HasActiveConsoleUser`
--   Machine             one poll with the arguments of `GetSerialization` as Transport, Environment, Auth,
--                       Packing and Util compute them from the answers of the system
--   Response            src/broker/ProviderSerialization.cpp: `GetSerialization`, one poll
--   Provider            src/core/ProviderCore.cpp: `SetUsageScenario`, `SetSelected`, `SetDeselected`,
--                       `GetCredentialCount`
--   Fields              src/core/ProviderCore.cpp and src/core/ProviderCredentialFields.cpp: the fields of
--                       the tile, `ReportResult`
--   Com                 src/com/ClassFactory.cpp, src/com/dllmain.cpp, src/core/ProviderCore.cpp: creating
--                       objects, their references, `DllCanUnloadNow`; Com.Calls: what callers hold
--   Registration        src/com/dllmain.cpp: `DllRegisterServer`, `DllUnregisterServer`
--   Run, Invariant      sequences of calls of all of these, and what they keep
--   Protocol            an abstract session with four phases, and that every sequence of calls follows it
--   Tests               the theorems at concrete inputs
--
-- How they interact: `GetSerialization` reads a message, parses it by Json, closes or keeps the session
-- by Broker, and asks for the next poll by Refresh. The logon screen answers a refresh by `SetSelected`,
-- whose decision reads the flags that the poll left, and then polls again. An operation of the source
-- that changes a global variable is a function from the state to the state.
--
-- Numbers: a DWORD or a LONG is its bit pattern, a number below 2 ^ 32, and additions and
-- subtractions that wrap around are written with `% word`. Bytes and UTF-16 units are numbers.
-- Fuel: the loops of `UnescapeJsonString` and of `ParseFlatBrokerMessage` run on the length of their
-- input, and each round consumes a character; that this is enough is part of what is stated of them
-- below, since they are compared with grammars that have no fuel. The loop of
-- `ReadPipeMessageWithTimeout` runs on the greatest length of a message, as each round that goes on makes
-- the message longer; `ReadPipeMessageUntilDone` runs on its timeout, as each slice takes time.
--
-- Not under src/, and therefore arguments: the pipe, the process and the outcome of the reads, the
-- answers of WaitForSingleObject, TerminateProcess, the allocator and the thread pool, the tick count,
-- the conversion from UTF-8, the authentication packages, and the sizes of the structures of the Windows
-- SDK. The outcomes of the transport and the packing are arguments of `GetSerialization`, so that a poll
-- can be considered with each of their outcomes; Machine computes them.
-- Not modelled: the interleaving of calls other than of refreshes and of changes of the events object,
-- since elsewhere each call is one step; what SecureZeroMemory does to freed memory; log lines but those
-- of the flow state; what the registry does with the calls on it; `DllMain`, which stores a handle; the
-- installer.
pub mod Base
pub mod Json
pub mod Auth
pub mod Packing
pub mod State
pub mod Flags
pub mod Refresh
pub mod Broker
pub mod Response
pub mod Environment
pub mod Util
pub mod Transport
pub mod Machine
pub mod Protocol
pub mod Com
pub mod Fields
pub mod Registration
pub mod Provider
pub mod Run
pub mod Invariant
mod Tests
