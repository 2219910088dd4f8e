-- ===== src/Auth.antt =====
-- internal/auth: roles and users (rbac.go) and the audit log (audit.go).
pub mod Rbac
pub mod Audit
