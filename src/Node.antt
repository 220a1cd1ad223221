-- ===== src/Node.antt =====
-- The package `node`: paths into data, the filters of a request, and edits.
pub mod KeyList
pub mod Choices
pub mod Edit
pub mod Callbacks
pub mod UrlPath
pub mod Values
pub mod Filters
pub mod Constraints
pub mod Path
pub mod Matcher
pub mod ListRange
pub mod FieldsMatcher
mod Tests
