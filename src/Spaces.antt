-- ===== src/Spaces.antt =====
-- crates/lucy-spaces: the editor of a page.
pub mod Editor
mod Tests
