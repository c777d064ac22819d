-- ===== src/Host.antt =====
-- The host's bulk transfers over the network (host/src/transport/network.c). What the socket
-- gives back is a list that the functions consume, so every run ends.
pub mod Send
pub mod Receive
