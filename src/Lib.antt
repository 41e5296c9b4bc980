-- ===== src/Lib.antt =====
-- Verification of warren, a RabbitMQ client library.
--
-- A publisher checks and encodes a message, waits for its rate limit and for the reconnect barrier of a
-- socket, takes a channel from that socket's pool, registers the delivery tag with the channel's confirm
-- tracker, publishes, and waits until the broker confirms the tag or the connection closes; one goroutine
-- of the channel takes the broker's returns and confirms. A socket has a supervisor that dials it again
-- and runs the barrier, in which the attached topologies are redeclared. A
-- consumer dispatches each delivery to a handler and settles it with one basic.ack or basic.nack, at
-- once or for a batch of them; the x-death header (counter A) and an in-process counter (counter B)
-- bound how often a message comes back. Errors of the broker become sentinels that callers classify.
--
-- Which file models which part, with the paths from the repository's root:
--   Confirms    the tracker, internal/confirms/tracker.go: Register, MarkReturned, Ack, Nack,
--               CloseAll, Cancel and Wait, with the index and its low-water mark.
--               Invariant holds the steps of a tracker and the calls that block in Wait.
--   Errors      errors.go and internal/amqperror/translate.go: error trees, errors.Is and errors.As.
--   Delivery    delivery.go: Ack, Nack, AckIf, nackOnTimeout.
--   Redelivery  counter B and its keys, consumer.go and batch_consumer.go.
--   Dispatch    dispatch and settleVerdict, consumer.go. It uses Delivery and Redelivery.
--   Dispatch/Dedupe  wrapDedupe, consumer.go; the DedupeStore is a parameter.
--   Lifecycle   consumer.go: Pause, Resume, Close, Health, openDeliveryCh; in Recovery
--               recoverDeliveryChannel and the end of a stream in startPump, in Cancelled the answer
--               to a basic.cancel and requeueUndispatched.
--   Batch       Batch and its verdicts, batch_consumer.go. It uses Delivery and Redelivery.
--   Pool        channelPool (channelpool.go) and publisherConnPool (publisher.go).
--   Throttle    publisher_rate_limiter.go, and byteLimiter, depthSampleDelay, dropSampler of
--               consumer.go.
--   Headers     internal/headers/xdeath.go.
--   Topology    topology.go: expand, validate (with DelayedTopic of delay.go), declareOnChannel, and in
--               Redeclare AttachTo and the redeclaration after a reconnect.
--   Publisher   publisher.go. Fields and Message: message.go, types.go and encodeMsg. Frame:
--               buildPublishing and callOnReturn. Demux: startConfirmDemux. Attempt: publishOnce. Retry:
--               Publish, Close and selectPool. Bulk: PublishBatch. Outcome: mapConfirmError and the
--               labels of errors. Attempt and Bulk run on the tracker of Confirms and the pool of Pool.
--   Connection  connection.go. Redial: internal/reconnect/loop.go and NextBackoff of retry.go.
--               Supervisor: supervisor and runBarrier. Barrier: waitBarrier. Nodes: nextDialAddr, and
--               PinIndex of internal/connpool/pool.go. Options: validateConnOptions, openPool, health.
--   Prelude     tests, lists, association lists and byte strings that the others share.
--
-- Code under a mutex or a compare-and-swap is one step on the state; what runs in between is a
-- sequence of such steps in any order. Where the code acts or is read between two locked parts (a Wait
-- between its receive and its delete, Health during a Pause or a Resume) those parts are steps of their
-- own. A select is an argument that says which case it takes. The
-- broker, amqp091, contexts, clocks and handlers are arguments: the answer to a frame, the closed
-- channels, the time of a call, the error a handler returns. An error that may be nil is an Option.
-- Numbers are natural or, where the source tests a sign, integers; where the source could wrap or
-- truncate, the model writes it out. The decimal digits of a delivery tag run on fuel 20, which every
-- uint64 has room in, those of a TTL on fuel above the number. The loops of Publish and of the reconnect
-- run on one unit of fuel for each attempt; with a positive limit on the attempts that limit is enough.
-- The recovery of a channel runs on the list of its rounds.
--
-- Not modelled: the loop that receives and the accumulation of a batch (next in the plan), the defaults
-- of the options, builders, RPC, codecs, metrics, tracing and logging.
pub mod Prelude
pub mod Confirms
pub mod Errors
pub mod Publisher
pub mod Delivery
pub mod Redelivery
pub mod Dispatch
pub mod Batch
pub mod Connection
pub mod Lifecycle
pub mod Pool
pub mod Throttle
pub mod Headers
pub mod Topology
