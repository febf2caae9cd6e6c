-- ===== src/Auth.antt =====
-- auth.rs: the store of named API keys and the authenticator of the HTTP transport.
pub mod Keys
pub mod ConstantTime
pub mod Store
pub mod Access
