-- ===== src/Auth/TwoFa.antt =====
-- services/api/src/twofa: the second factor. Push holds the challenges that a phone answers, Totp the
-- one-time passwords, Service what the login client and the phone call.
pub mod Options
pub mod Push
pub mod Totp
pub mod Service
pub mod Lifecycle
pub mod Lockout
pub mod Removal
pub mod Tests
