-- ===== src/Auth.antt =====
-- Tokens, roles and accounts: common/security.py, apps/api/dependencies.py,
-- services/auth_service/user_service.py and the routes of apps/api/routers/v1/auth.py and users.py.
pub mod Tokens
pub mod Accounts
pub mod Routes
pub mod Laws
