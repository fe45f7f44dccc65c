-- ===== src/Responses.antt =====
-- src/proxy/responses.rs: the front door for the OpenAI Responses protocol, which translates to and
-- from Chat Completions.
pub mod Names
pub mod Request
pub mod Chat
pub mod Reply
pub mod Stream
pub mod Pipe
pub mod Replay
pub mod Calls
pub mod Tests
