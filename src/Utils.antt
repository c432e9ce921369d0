-- ===== src/Utils.antt =====
-- frontend/src/utils.js and frontend/src/validation.js, a module for each group of helpers.
pub mod Curl
pub mod Numbers
pub mod Validation
pub mod Time
pub mod Headers
pub mod Regex
pub mod Address
pub mod Params
pub mod AddressTests
pub mod Tests
