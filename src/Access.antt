-- ===== src/Access.antt =====
-- The API's modules for organizations, their members, invitations and workforce users.
pub mod Rows
pub mod Email
pub mod Tenancy
pub mod Invitations
pub mod Members
pub mod Organizations
pub mod Workforce
pub mod Reads
pub mod Owners
pub mod Keeping
pub mod Operations
pub mod Steps
pub mod Spent
pub mod LastOwner
pub mod MemberUpdate
pub mod Lifecycle
pub mod Expiry
pub mod Examples
