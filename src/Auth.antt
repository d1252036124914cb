-- ===== src/Auth.antt =====
-- Authentication, app/services/auth.py: the service over the users and the tokens of
-- Store/Tokens, and what is proved of both.
pub mod Tokens
pub mod Sessions
pub mod Passwords
pub mod Admins
pub mod Steps
pub mod Recovery
pub mod Spent
pub mod SingleUse
pub mod Silence
