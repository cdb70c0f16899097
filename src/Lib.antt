-- ===== src/Lib.antt =====
-- LwIPC, a C++ library for publish/subscribe messaging over shared memory, within a process and
-- over TCP. Its code is the headers of include/lwipc/.
--
-- The parts and the files that model them:
--
--   Base       shared names; lists over the native numbers, bit operations, machine words, bytes
--   Crc        `detail::crc32_update` of include/lwipc/ipc_message.hpp
--   Message    `IPCHeader` and `IPCMessage` of include/lwipc/ipc_message.hpp; Message.Payload is the
--              structs of typed payloads
--   Ring       the ring buffers with one producer: `ShmRingBuffer` of
--              include/lwipc/shm_ring_buffer.hpp (Ring.Shm) and `IntraRingBuffer` of
--              include/lwipc/publisher.hpp (Ring.Intra); Ring.Log is their specification, Ring.Trace
--              programs of calls, Ring.Concurrent the interleaving of single accesses; Ring.Buffered adds
--              the store buffer of the producer's processor; Ring.Segment is the constructor and
--              the destructor over the calls of POSIX
--   Pool       `ObjectPool` of include/lwipc/object_pool.hpp, and `LoanedSample` of
--              include/lwipc/loaned_sample.hpp (Pool.Loan); Pool.Concurrent is the pool's calls under
--              interleaving
--   PubSub     `Publisher` of include/lwipc/publisher.hpp; `Subscriber` of
--              include/lwipc/subscriber.hpp with `ChannelStats` of include/lwipc/channel_stats.hpp
--              (PubSub.Subscriber); `IntraPublisher`, `IntraSubscriber` and `make_intra_pubsub`
--              (PubSub.Intra); PubSub.Spin is `spin`, `start_async` and `stop` of both subscribers, and
--              PubSub.Attach `try_attach`
--   Socket     include/lwipc/socket_transport.hpp: the framing of `detail`, `SocketServer` and
--              `SocketClient` (Socket.Server); Socket.Calls says what is relied on of `recv` and `send`
--   Mpmc       `MpmcRingBuffer` of include/lwipc/mpmc_ring_buffer.hpp, with several producers
--   Registry   `ChannelRegistry` and `discover` of include/lwipc/channel_registry.hpp; Registry.Segment
--              is its constructor and destructor, Registry.Concurrent its lock and the calls of several
--              processes
--
-- A publisher puts a header and a payload into a slot of a ring, which consumers read with a
-- cursor of their own; it lends payload objects from a pool through guards that return them. A
-- message over TCP is the same header and the payload's bytes.
--
-- Conventions. An object is a record and a method a function to the new record. Names follow the
-- source, in snake case; `data_` and `valid_` of a message are `bytes` and `valid`, since `data`
-- is reserved, and `data` of a slot is `item`. Unsigned integers are natural numbers, with the
-- remainder written where the source's arithmetic can wrap. A template's `Capacity` is an
-- argument, and a payload type either a type parameter or the object's bytes. Clock readings are
-- arguments, and the arithmetic of `double` is a record of operations. `memcpy` of a header is its
-- layout on a little-endian host with the usual alignment: four bytes of padding stand before
-- `timestamp_ns`.
--
-- Bounds. Positions of a ring stay below 2^62, so that no sequence number wraps, and Mpmc has at
-- most 2^62 slots. Fewer than 2^48 compare-exchanges of the pool succeed, so that no tag comes
-- back. `available` takes capacity + 2 rounds of fuel, more than its loop ever runs; the loop that
-- drains a channel takes one round more than the cursor lies behind. `recv_all` and `send_all` of
-- n bytes take n + 1 rounds, since each round but the last moves a byte or more.
--
-- Ring.Concurrent interleaves the accesses of one producer and of any number of consumers in every
-- order, Mpmc those of any number of both, and Pool.Concurrent those of any number of callers of
-- the pool, with sequentially consistent memory: what weaker memory orders would add is not
-- modelled, but for Ring.Buffered, where the producer's stores reach the memory late and in order,
-- as on x86. PubSub.Spin interleaves a subscriber's owner, its worker and the publisher, one call
-- of the ring at a time. Registry.Concurrent interleaves the calls of any number of callers of the
-- registry, one look at an entry or one assignment to it at a time, as if the copy of a name into
-- an entry were one assignment; in the other files on the registry, calls run one after another.
--
-- Not modelled: how long a sleep lasts beyond what is asked for, and socket options.
mod Base
pub mod Crc
pub mod Message
pub mod Ring
pub mod Pool
pub mod PubSub
pub mod Registry
pub mod Socket
pub mod Mpmc
