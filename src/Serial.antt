-- ===== src/Serial.antt =====
-- The serial transport: client/common/serial and host/src/transport/serial.c, two programs that
-- exchange bytes.
pub mod Io
pub mod Loader
pub mod Tool
pub mod Blocks
pub mod Sending
pub mod Commands
pub mod Requests
pub mod Syscalls
