-- ===== src/Filters.antt =====
-- frontend/src/components/filters: the filters of the connections, which keep in step with one
-- another by the payloads that they send and receive under the topic `connections_filters`.
pub mod StringFilter
pub mod PortFilter
pub mod AddressFilter
pub mod FlagFilters
pub mod FlagTests
pub mod TagFilters
pub mod TagTests
pub mod Tests
