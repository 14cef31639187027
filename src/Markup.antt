-- ===== src/Markup.antt =====
-- The markup of retrieved records: context_cache/context_markup.py. Markup/Defs.antt has the
-- functions, Markup/Boundaries.antt counts the characters that delimit elements and attributes.
pub mod Defs
pub mod Boundaries
unfoldable pub use Defs.*
