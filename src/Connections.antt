-- ===== src/Connections.antt =====
-- frontend/src/components/panels/ConnectionsPane.js: the list of connections, which the user
-- scrolls through, and the server that it is loaded from.
pub mod Server
pub mod Entries
pub mod Selection
pub mod Window
pub mod Loading
pub mod WindowTests
pub mod LoadingTests
pub mod EntryTests
