-- ===== src/Caep.antt =====
-- internal/caep/set.go: the SET that the translator sends to the actuator, and its unsigned JWT.
pub mod Set
pub mod Jwt
