-- ===== src/Auth.antt =====
-- auth/rbac and models/rbacmodel: who may do what.
pub mod Wildcard
pub mod Model
pub mod Actions
pub mod Statements
pub mod Arn
pub mod Check
pub mod Db
pub mod Rbac
mod Tests
