-- ===== src/Common.antt =====
-- Package common: values that the client and the server share.
pub mod Password
pub mod Path
pub mod HttpRange
pub mod Migration
pub mod Names
pub mod Octal
pub mod Query
