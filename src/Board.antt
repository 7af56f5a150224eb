-- ===== src/Board.antt =====
-- The board: firmware/components/board_support.
pub mod ButtonInput
mod Examples
