-- ===== src/Governor.antt =====
-- The context governor: context_cache/governor.py. Governor/Defs.antt has its methods on one thread,
-- Governor/Turns.antt is about a whole turn.
pub mod Defs
pub mod Turns
