-- ===== src/Domain.antt =====
-- internal/domain: the entities of notification.go and the sentinel errors of errors.go.
pub mod Errors
pub mod Entities
pub mod Validation
