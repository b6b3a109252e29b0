-- ===== src/Base.antt =====
-- The parts of src/playground/base that the plugin's own logic rests on.
pub mod StringPiece
