-- ===== src/Application.antt =====
-- What is around the panes: the requests (frontend/src/backend.js), the socket that brings the
-- notifications (frontend/src/notifications.js), and the pages (frontend/src/components/App.js and
-- frontend/src/components/pages).
pub mod Backend
pub mod Socket
pub mod Reconnection
pub mod Setup
pub mod Sending
pub mod Pages
pub mod Outage
pub mod Tests
