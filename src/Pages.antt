-- ===== src/Pages.antt =====
-- Pages of results: app/infrastructure/pagination.py, the keyset pages of the repositories and
-- the operations that return them.
pub mod Cursor
pub mod Order
pub mod Filters
pub mod Board
pub mod Dealings
pub mod Admin
pub mod Visible
pub mod Creator
pub mod Slices
pub mod Complete
