-- ===== src/Ipc.antt =====
-- The protocol of the administrator's commands, src/contracts/admin-command-ipc.ts, the application
-- that executes them, src/ipc/admin-command-application.ts, and the connections that carry them,
-- src/ipc/admin-command-ipc.ts.
pub mod Application
pub mod Execute
pub mod Json
pub mod Label
pub mod Payload
pub mod Platform
pub mod Reasons
pub mod Request
pub mod Response
pub mod Services
pub mod Tests
pub mod Text
pub mod Transport
