-- ===== src/Lib.antt =====
-- framelink passes GPU frames and audio between local processes. This library models its
-- platform-independent core.
--
-- * The reader ledger of a channel (src/fl_read_ledger.hpp, class ReadLedger): a ring of up to 16
--   retained frames and a table of 256 reader tokens. A channel acquires a frame for a reader,
--   readers retain and complete it, and the leading frames without readers retire together.
--   Ledger.antt has the class: its state is the record Ledger, and each method is the function of its
--   name (acquire, retain, get, complete, defer, finish_deferred for finishDeferred, retirement,
--   retired, reset_epoch for resetEpoch, draw_token for token, add_reader for addReader).
--   Ledger/Window.antt reads the ring as a list, Ledger/Owners.antt counts the tokens of a frame,
--   Ledger/Invariant.antt has the invariant, with its preservation in Ledger/Invariant/, and
--   Ledger/Retire.antt, Ledger/Held.antt and Ledger/Tokens.antt are about retirement and about tokens.
-- * The boundary memory policy (src/framelink_memory.cpp, include/framelink_memory.h): what the
--   endpoints of a boundary require of memory, and whether a path to it fits. Memory.antt has the
--   functions, Memory/Policy.antt evaluates one endpoint, Memory/Agreement.antt combines requirements,
--   Memory/Boundary.antt evaluates all endpoints, Memory/Wire.antt is about the 64-byte message.
-- * The local session contract (src/framelink_session.cpp, include/framelink_session.h): capabilities,
--   configurations and clocks. Session.antt has the types and validations, Session/Negotiate.antt
--   flSessionNegotiate, Session/Clock.antt flSessionMapPts and flSessionSampleOffset,
--   Session/Message.antt flSessionEncode and flSessionDecode, and Session/Replacement.antt is about the
--   order of replacements.
-- * Geometry and imported planes (src/fl_layout.h): Layout.antt has validGeometry and planeFits,
--   Layout/Planes.antt compares the latter with exact arithmetic.
-- * Frames on the wire (src/fl_metadata.hpp, src/fl_protocol.h): Metadata.antt has the feature words,
--   validateMetadata, decodeFrame and the message of sendFrame, Metadata/Exchange.antt is about what
--   two peers exchange.
-- * The ring of DMA-BUF images (src/framelink_linux.cpp, src/fl_protocol.h): Ring.antt has the message
--   of handOverRing and what importRing makes of it, Ring/Handover.antt compares the two.
-- * The producer's half of a Linux channel (src/framelink_linux.cpp, src/fl_sync_fd.hpp,
--   src/fl_read_api.inc) and its buffer references (src/fl_buffer_refs.hpp): Producer.antt has
--   flAcquireBuffer, flCancelBuffer, flSetFrameMetadata, flBeginSubmit, flEndSubmit, flSubmit,
--   flSubmitSyncFd and the consumer's releases, on the record Producer of the fields of flChannel that
--   they use; Producer/Attach.antt has flOpenProducer, importRing and flRequestGeometry. References.antt
--   has the class BufferReferences, which the producer keeps and asks for busy slots. What the socket
--   delivers and what poll() says of a fence are arguments (Round). Producer/Submitted.antt and
--   Producer/Ownership.antt are about who owns a slot, Producer/Rounds.antt and
--   Producer/Acquisition.antt about the wait for a buffer, Producer/Submission.antt about submission,
--   References/Counts.antt about the counters.
-- * The consumer's half of a Linux channel (the same files): Consumer.antt has the accept loop (welcome,
--   attach, receive), flAcquireFrame, flRelease, flReleaseSyncFd, flSignalConsumedSyncFd and
--   flFrameReadySyncFd, on the record Consumer of the fields of flChannel that they use.
--   Consumer/Leases.antt has the read leases of src/fl_read_api.inc over the reader ledger, and
--   Consumer/Allocation.antt reallocRing, adoptRing and createChannel. Consumer/Timeline.antt,
--   Consumer/Collection.antt and Consumer/Calls.antt are about the values that it releases,
--   Consumer/Frames.antt about the frames that it takes, Consumer/Allocation/Pools.antt about the pools
--   that it creates. GBM, fstat, dup and poll are arguments.
-- * A channel as a whole: System.antt has both halves with the frames and the releases under way, and a
--   step for each call that it has an operation for on a ring, with its failures, and for each receipt; the calls of
--   a consumer are those of a caller that keeps its duty (MayCall of Consumer/Calls.antt): it does not signal
--   the value of a frame that it still holds, which flSignalConsumedSyncFd itself lets pass.
--   System/Invariant.antt says what the halves agree on,
--   System/Producing.antt, System/Steps.antt and System/Safety.antt are about its steps and System/Start.antt
--   about how a channel begins. The steps are those on one ring:
--   a new ring begins a new system. The producer's two halves of a submission are two steps, and
--   flSubmit is both.
-- * Slot sets (src/framelink_slots.cpp): Slots.antt has flOpenProducerSlot, on what the opening of each
--   slot gives in each sweep, and says what a sweep means. Its sweeps run on fuel; it answers none
--   where that runs out before the deadline.
-- * The control channel (src/fl_ipc.h, src/fl_ipc_posix.cpp): Ipc.antt has the class Channel with
--   sendWithFds and recv, Ipc/Endpoint.antt connect, adoptConnectedFd, listen and the class Listener.
--   Ipc/Framing.antt compares what is sent with what is received. The kernel's answers are arguments,
--   and the descriptors that are opened, installed and closed are results.
-- * A GStreamer session (gst/framelink_session_context.cpp): Gst.antt has the record Coordinator of
--   the fields of _FlGstSession, and its configuration, registration, waits and mappings; Gst/Media.antt
--   has its audio stream, its ends and its events. A call is named as its function without
--   fl_gst_session_. Gst/Calls.antt puts the calls that change a session into sequences, and
--   Gst/Later.antt, Gst/Generations.antt and Gst/Publishing.antt are about what those leave of a
--   generation. It uses the
--   session contract for validation, messages and mapped times.
-- * The event channel of such a session (gst/fl_gst_event_channel.hpp): Gst/Events.antt has the class
--   FlGstEventChannel, Gst/Events/Delivery.antt is about one message, Gst/Events/Fifo.antt joins two
--   ends over a stream and has the queue that they stand for, Gst/Events/Arrival.antt
--   and Gst/Events/Simulation.antt relate the two, and Gst/Events/Order.antt is about the order of events.
-- * The rendezvous of local processes (runtime/av_rendezvous.cpp) and its authentication
--   (runtime/av_auth.cpp): Runtime/Rendezvous.antt has RendezvousOwner and readEndpoint on the files
--   of a directory, Runtime/Directory.antt is about those, Runtime/Auth.antt has both ends of the
--   authentication, and Runtime/Handshake.antt joins them.
-- * Api.antt has the types of include/framelink.h, Base.antt the helpers that all parts share, and
--   Base/Bytes.antt the little-endian fields of both message formats. Examples.antt has concrete
--   inputs.
--
-- The parts meet in these types: a ledger retains the flFrame of Api.antt, the producer asks its
-- references, the consumer leases frames through the ledger, and the memory and session messages use the same field encoding.
--
-- Numbers are natural numbers. Where the source's arithmetic can wrap, the model writes the
-- remainder (mul64, u64, not32), and signed times are integers. A ring's loop runs on its count of
-- at most 16 frames, so that it always ends: `while (count_)` of retired() takes one frame in each
-- round, and its fuel is count_. The waits of flAcquireBuffer and flAcquireFrame run on fuel too, and they answer
-- none where that runs out; their milliseconds wrap at 2^32 as in the source. The process-wide token
-- counter is a field of the ledger; the tokens that other ledgers draw in between are steps of a
-- history.
--
-- The loop of connect() runs on fuel, of which timeout / 25 + 2 rounds are enough. A loop over a
-- system call runs over the list of the call's answers, and still waits where they run out. The messages
-- that one round of flAcquireBuffer drains are a finite list, so that a consumer which keeps a message
-- queued at all times, on which the source's loop does not end, is not modelled.
--
-- Not modelled: the Windows and Android channels, the GPU calls and the CPU mapping of images, the
-- addresses of the sockets and the named pipes, the negotiation of a session over a stream, the
-- GStreamer elements, the Windows branch of the rendezvous, tracing, and the samples. Methods of the
-- ledger are atomic because the owning channel serializes them, and the calls of a session are
-- because they hold its lock.
pub mod Base
pub mod Api
pub mod Ledger
pub mod Memory
pub mod Session
pub mod References
pub mod Producer
pub mod Ring
pub mod Consumer
pub mod System
pub mod Layout
pub mod Slots
pub mod Metadata
pub mod Ipc
pub mod Gst
pub mod Runtime
pub mod Examples
