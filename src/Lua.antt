-- ===== src/Lua.antt =====
-- internal/lua: what guards the calls of a peer's Lua functions.
pub mod RateLimiter
