-- ===== src/Tui.antt =====
-- The terminal application's own small state machines: its toasts and its event queue.
pub mod Toast
pub mod Queue
pub mod Tests
