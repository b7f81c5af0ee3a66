-- ===== src/Utils.antt =====
-- src/utils.c: case folding, port numbers, dots and commas, trimming. A string that the code
-- changes in place is a value here: each function returns the new contents of the buffer.
pub mod Case
pub mod Ports
pub mod Trimming
