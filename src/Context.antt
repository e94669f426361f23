-- ===== src/Context.antt =====
-- context/truncation.py, windows.py, tool_output.py and formatting.py: what of a conversation fits.
pub mod Truncation
pub mod Windows
pub mod Samples
