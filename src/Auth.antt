-- ===== src/Auth.antt =====
-- The package auth (auth/*.go): claims, the token validator, and the two middlewares.
pub mod Claims
pub mod Bearer
pub mod Guard
pub mod Optional
pub mod Validator
