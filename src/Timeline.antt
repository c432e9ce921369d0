-- ===== src/Timeline.antt =====
-- frontend/src/components/Timeline.js: the chart of a metric over time, and its selection.
pub mod Series
pub mod Handlers
pub mod Selecting
pub mod Zoom
pub mod Loading
pub mod LoadingTests
pub mod Tests
pub mod HandlerTests
