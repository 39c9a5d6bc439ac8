-- ===== src/Tools/Gates.antt =====
-- The gates of a change at concrete inputs.
mod Examples
