-- ===== src/Server.antt =====
-- internal/server: the parts of the server, one module each.
pub mod Ring
pub mod QueryLog
pub mod History
pub mod RateLimit
pub mod Acl
pub mod Zones
pub mod ConnPool
pub mod Answers
pub mod Verdict
pub mod Query
pub mod Forward
pub mod Iterate
pub mod Secure
pub mod Resolve
pub mod Handle
pub mod Admin
pub mod Minecraft
pub mod Boot
pub mod Snapshot
mod Tests
mod LimitTests
mod PoolTests
mod AnswerTests
