-- ===== src/Ldn.antt =====
-- sysmodule/source/ldn: the local wireless service that games talk to.
pub mod StateMachine
pub mod NodeMapper
pub mod ProxyBuffer
pub mod ProxyHandler
pub mod SessionHandler
mod Tests
