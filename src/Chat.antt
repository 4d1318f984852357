-- ===== src/Chat.antt =====
-- internal/group_types/chat.
pub mod History
pub mod Rooms
pub mod Forwarding
pub mod Storm
