-- ===== src/Lib.antt =====
-- MigTD is the service TD that migrates a trust domain between two machines under Intel TDX. One
-- MigTD runs on each side. The host asks it for a migration (src/migtd/src/migration/session.rs);
-- the two instances then exchange their policies (src/migtd/src/migration/pre_session_data.rs),
-- attest each other in a TLS session, each judging the other by its policy
-- (src/policy/src/v2/policy.rs), exchange the migration session keys and the range of versions that
-- they support, and write the agreed version and the peer's key to the target TD.
--
-- The build that is modelled has the features main, vmcall-raw and policy_v2, and neither AzCVMEmu
-- nor spdm_attestation.
--
-- Base: names that all files share. Base/Tests has Boolean tests, Base/Lists lists over native
--   numbers, Base/Bytes the little-endian integers and `checked_add`, Base/OptionDo the `?` of
--   Option.
-- Migration/Status: `MigrationResult` of src/migtd/src/migration/mod.rs, and `Result`.
-- Migration/Transport: the stream under a session, `AsyncRead` and `AsyncWrite` of
--   src/async/async_io/src/lib.rs, as a record `Transport` of two operations on a state, and what a
--   reliable stream promises as a record `Wire`. An async function is a function of the state of
--   the channel to a result and a state; a short write or read is any that the record allows.
-- Migration/PreSession: src/migtd/src/migration/pre_session_data.rs. Frame has the message header
--   and the hello payload, PeerData the blob of policy and issuer chain, Channel the two loops that
--   move bytes, and Exchange the packets and `pre_session_data_exchange`. Under them stand the
--   proofs: what a blob's decoding accepts (PeerData/RoundTrip), how the loops end
--   (Channel/Delivery), the rules for sequences of steps (Channel/Rules), the packets one by one
--   (Exchange/Packets and Exchange/Receive), and the exchange against any peer (Exchange/Protocol)
--   and against one that runs the same code (Exchange/Honest).
-- Migration/Info: the payloads of the host's requests, of src/migtd/src/migration/mod.rs.
-- Migration/Requests: `parse_request` of src/migtd/src/migration/session.rs with its helpers. The
--   static `REQUESTS` and the variable `pending_error_report` are its state. Outcome has the
--   proofs.
-- Migration/Version: `ExchangeInformation` and `cal_mig_version` of the same file.
-- Migration/KeyExchange: `exchange_msk` of the same file and `verify_servtd_attr` of
--   src/migtd/src/migration/servtd_ext.rs, over a record `Machine` of the calls that they make. Log
--   has the log of the writes to the target TD and the rules for steps that write nothing, Prepare
--   what comes before the first write, and Writes what reaches the target TD.
-- Migration/Service: `handle_pre_mig` of src/migtd/src/bin/migtd/main.rs, as a relation between the
--   states before and after a step of one of its tasks; Service/Concurrency has its invariant.
-- Migration/Logging: src/migtd/src/migration/logging.rs. Level has the levels, Entry the page of a
--   processor and one entry written to it, Area the statics, `create_logarea` and `entrylog`, and
--   Backend the logger and `enable_logarea`. Page and Append (on the lemmas of Append/Steps) say
--   what a page shows, Areas and Record what all the pages show, Publish, Enable and Create what
--   the operations do to them, Health and Runs what holds of a release build, Evict the loop that
--   evicts, and Headers the bytes of an entry header.
-- Policy: the crate src/policy, module v2. Fallible has `PolicyError` and its results, Text the
--   operations on text, Status and ServtdStatus the TCB statuses, Property the judgement of a value
--   by a property, Evaluate the policies, Verify the signatures, Measurements the search of
--   v2/servtd_collateral.rs, and Hex the proofs on the coding of v2/mod.rs. Status/Names,
--   Property's TcbStatusRule, IntegerRule and StringRule, Evaluate/Accepted and Verify/Signed say
--   what is accepted.
-- Devices/Vsock/Packet: the packets of src/devices/vsock/src/protocol.rs as their buffers, with the
--   fields of the header in Packet/Fields.
-- Devices/Vsock/Connection, Devices/Vsock/Stream: `VsockStream` of src/devices/vsock/src/stream.rs.
--   Connection has its state and the actions on it and on the transport below, Stream the
--   operations. Stream/Queue has the lemmas on the queue of data, Stream/Incoming which bytes the
--   packets carry, Stream/Grows what each step does to the queue, and Stream/Receive says what
--   `recv` does. Stream/Send has `send`, Stream/Keeps the steps that hand no data to the transport,
--   and Stream/Sent says what `send` does.
-- Devices/Virtio/Queue: `VirtQueue` of src/devices/virtio/src/virtqueue.rs, with `VirtQueueLayout`
--   in Queue/Layout and `new` in Queue/New. Chains says which descriptors are free and which are in
--   use, Recycle, Freed and Pop what `pop_used` does, Program, Closing and Add what `add` does, and
--   Runs what holds between a driver and a host.
-- Tests: a channel, a machine and readers that satisfy the parameters' laws, and applications of
--   the theorems.
--
-- The two loops that move bytes run on fuel, which is the number of bytes to move: each round that
-- goes on moves at least one byte, as `Wire` says of a channel that does not fail, so the fuel is
-- enough, and the theorems on them say so. The loop that evicts log entries runs on the number of
-- bytes to free, of which each round frees at least 24. The `recv` and `send` of a vsock stream can
-- wait for ever: the model waits for at most `patience` packets and answers `waiting` after them,
-- and the theorems cover every patience. The loop of `send` runs on the number of bytes to send, of
-- which each round sends at least one. All other functions are structural. Integers are natural
-- numbers below the bounds of their types, with the wrap-around of `as u32` written out. A text is
-- the list of the bytes of its UTF-8.
--
-- Parameters, with their laws: the stream (`Wire`), the reader of the scroll crate (`Pread`), the
-- integers of the byteorder crate (`ByteOrder`), the parser of serde_json and the signature check
-- of the crypto crate (`External`), and the TDX module, the transport, RA-TLS and the initial
-- policy check of a key exchange (`Machine`, whose writes to the target TD `WriteLog` records). The
-- allocator, the texts that `format!` makes and the maximum of the crate log are parameters of the
-- log without laws, but that a page has 4096 bytes. The transport of a virtqueue
-- (`VirtioTransport`) is one too, and so is that of a vsock stream (`Link`), of which `send` needs
-- that a packet goes out whole or not at all (`Delivers`), and `recv` that what has been handed
-- over can be read off the state (`Reports`); memory of a virtqueue that the host can write is
-- arbitrary where it is read. The shared pages of the log are not: the host writes them only in the
-- events `host_writes` of Logging/Runs, where the theorem asks for intact pages, and the other
-- theorems on `entrylog` ask for pages that show a log. Timeouts are part of the steps that they
-- guard.
--
-- Not modelled: failed allocations that abort, also that of the buffer for a message of up to 4 GiB
-- of `receive_pre_session_data`; the debug console of the logger; cryptography and attestation; the
-- devices below the stream, except the vsock packets, the vsock stream without its `accept`, `bind`
-- and choice of ports, and the virtqueue; the executor, beyond the interleavings of
-- Migration/Service; the older policy format of src/policy/src/v1; rebinding; the setup of the
-- machine.
pub mod Base
pub mod Migration
pub mod Policy
pub mod Tests
pub mod Devices
