-- ===== src/Flow.antt =====
-- src/proxy/flow.rs: a chat request is offered to the candidates of its selection in order, until
-- one of them answers.
pub mod Messages
pub mod World
pub mod Attempt
pub mod Handler
pub mod Debug
pub mod Keys
pub mod Requests
pub mod Direct
pub mod Outcomes
pub mod Failures
pub mod Refreshed
pub mod Exhausted
mod Tests
