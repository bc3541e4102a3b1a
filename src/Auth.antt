-- ===== src/Auth.antt =====
-- Who may use the API (services/api/src/{auth,user,trusted-device,invitation,device,twofa}): accounts,
-- the login with its second factor, refresh tokens, trusted devices, invitations, push devices and
-- backup codes.
pub mod Schema
pub mod Invitation
pub mod Device
pub mod BackupCode
pub mod Session
pub mod TrustedDevice
pub mod Outside
pub mod Role
pub mod User
pub mod AuthService
pub mod TwoFa
pub mod Login
pub mod Samples
pub mod Guard
