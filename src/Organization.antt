-- ===== src/Organization.antt =====
-- api/src/service/domain/organization: the users and the groups.
pub mod Group
pub mod User
pub mod AuthToken
pub mod Resolve
