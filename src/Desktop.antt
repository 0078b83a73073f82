-- ===== src/Desktop.antt =====
-- apps/desktop/src-tauri/src: the host's decisions.
pub mod Modes
pub mod Handshake
