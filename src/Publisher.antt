-- ===== src/Publisher.antt =====
-- The publisher, publisher.go and message.go.
--
-- The children are Message and its frame (Message, Frame), the correlation of returns and confirms
-- (Demux), one attempt (Attempt), the retry loop (Retry), PublishBatch (Bulk), and the translation of
-- errors (Outcome).
pub mod Fields
pub mod Message
pub mod Frame
pub mod Outcome
pub mod Demux
pub mod Attempt
pub mod Retry
pub mod Bulk
pub mod Examples
