-- ===== src/Tests.antt =====
-- Runs of the theorems at concrete inputs.
pub mod Tables
pub mod Lists
pub mod Settings
pub mod Program
pub mod Files
pub mod Requests
pub mod Client
pub mod Exchange
pub mod Dispatch
