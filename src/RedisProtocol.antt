-- ===== src/RedisProtocol.antt =====
-- net/protocol/redisprotocol.h, redisprotocol.cc and protocoldefs.h: the requests and the replies.
pub mod Parser
pub mod Response
pub mod RoundTrip
