-- ===== src/Application.antt =====
-- src/application, include/cmlb/application: the use cases.
pub mod RssSubscription
pub mod UpdateSettings
pub mod Registry
pub mod Ports
pub mod World
pub mod CancelTask
pub mod BackendControl
pub mod Transfer
pub mod Launch
pub mod ShowStatus
pub mod DriveResource
