-- ===== src/Lib.antt =====
-- A distributed bank: a C++ client (client/) and a Go server (server/) that exchange UDP datagrams.
-- This development models the client.
--
-- How the parts interact. The client's main loop asks the user for a command; the command encoder
-- turns it into TLV fields; the message serializer puts the 18-byte header with the request id in
-- front; the socket sends the datagram and waits, with retries; the reply goes back through the
-- serializer and the command decoder. After a MONITOR request the client listens for callbacks,
-- flat messages with a codec of their own.
--
-- Which file models what:
-- Base: native numbers, lists, Boolean tests; Base/Outcome is client/include/utils/result.h and
--   internalError.h.
-- Memory: a host's memory: bytes, byte order, htonl and its kin as fields of the record Platform
--   with what POSIX says of them (Memory/Hosts instantiates it twice); `at` and `memcpy` are reads
--   from a vector, `crash` outside of it; Memory/Swap is the byte swap that the codecs write out;
--   Memory/Words the appended and read words of 2 and 4 bytes.
-- SafeMath: client/include/utils/safemath.h and client/src/utils/safemath.cpp; SafeMath/Signed is
--   the branch of a signed type, over integers.
-- Protocol: client/include/protocol/protocol.h, message.h, callback.h and
--   client/src/protocol/protocol.cpp.
-- Serializer: client/src/protocol/msgSerializer.cpp (`serialize`, `deserialize`).
-- CmdEncoder: client/src/protocol/cmdEncoder.cpp; Encode and Decode hold the functions under the
--   code's names, the others the wire format and the proofs.
-- CallbackEncoder: client/src/protocol/callbackEncoder.cpp.
-- Errors: client/src/utils/internalError.cpp (`to_string`).
-- Socket: client/src/networkUtils/udpSocket.cpp (`send_message`, `receive_message`, `bind_socket`,
--   `get_local_info`), as functions of the outcomes of the system calls; Socket/Life is
--   client/src/networkUtils/baseSocket.cpp and the constructor of udpSocket.cpp, with the calls
--   that they make.
-- Invocation: client/src/utils/semantics.cpp (`get_invocation_flag`).
-- Terminal: client/src/core/bankIO.cpp and client/include/core/bankIO.h: Terminal holds the calls
--   that write and what they write, Terminal/Input those that read, on the bytes that std::cin is
--   going to deliver.
-- Main: client/src/main.cpp (`main`), from the command line to the exit code, and the constructor
--   of BankClient.
-- Client: client/src/core/bankClient.cpp and client/include/core/bankClient.h. State is the object
--   with its two ends, the bytes of the terminal and the answers of the socket still to come, and
--   the interfaces of its codecs (Services); Text and Number are trimString and its kin and
--   std::stoll; Input is getValidatedString, -Password, -Currency and -Number; Commands is
--   build_command and the fill_ functions; Send is build_message, prepare_message and
--   send_to_server; Pipeline is execute_request_pipeline, execute_client_req, listen_server and
--   monitor_server_updates; Session is run; Typed follows what a user types from the terminal to
--   the server.
--
-- Conventions. A byte or a word is a natural number with its range as a hypothesis and its
-- wrap-around written out; `size_t` has 64 bits; a double is its 64 bits, which the code copies
-- only. A C++ enumeration holds any number of its underlying type. `Result` has, besides a value
-- and an error, `crash` (undefined behaviour or an uncaught exception) and `unfinished` (a loop of
-- the model without fuel, or a wait for an answer of the socket that is not among the known ones).
--
-- Fuel. The decoder's loop has one round for each byte and one more: a round moves on by five bytes
-- at least. The loop of `msb_index` has 32 rounds, the bits of its argument. The listener and the
-- main loop run as long as the clock and the user let them; their fuel is an argument. A round of
-- the main loop that goes on takes a byte of the terminal at least, and at the end of the input the
-- user quits. The five tries of the client's loops are the code's own bound. The loop that passes
-- over callbacks runs along the known answers of the socket: five that are no callbacks are enough
-- for a request.
--
-- The environment. What the terminal and the socket are going to deliver, and the readings of the
-- steady clock, are fields of the client's state. The answers of receive_message are a list of any
-- length: as many of them, from the first on, as are known of a history that may go on for ever,
-- endless callbacks among them; a run that needs more is `unfinished`. A theorem for every state is
-- so one for every history. std::stod and std::to_string of a double are parameters, and so is what
-- the host's toupper makes of a negative char, which the C standard leaves undefined. An int has 32
-- bits. A peer that reads what the client sends, or pushes callbacks, is one with these same C++
-- codecs on another platform: the Go server numbers the currencies from 1, the client from 0, and
-- uses big-endian doubles on every host, the client on a little-endian host only.
--
-- Not modelled: the Go server and the integration tests, which are written in another language; the
-- system calls themselves, whose outcomes are arguments; the branches of the sources for a Windows
-- host; a terminal that goes on behind its end of file; generateRandomUint32 of
-- client/src/utils/semantics.cpp, which draws from a random device and is never called.
pub mod Base
pub mod Errors
pub mod Memory
pub mod SafeMath
pub mod Protocol
pub mod Serializer
pub mod CmdEncoder
pub mod CallbackEncoder
pub mod Terminal
pub mod Client
pub mod Socket
pub mod Invocation
pub mod Main
