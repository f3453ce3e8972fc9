-- ===== src/Domain.antt =====
-- packages/domain/src: the pure rules of the program.
pub mod Money
pub mod Fees
pub mod Membership
pub mod Entitlements
pub mod Permissions
mod Tests
