-- ===== src/Scan.antt =====
-- internal/podscanner/pod_scanner.go, a module for each step of the scan.
pub mod Types
pub mod Skip
pub mod Sidecar
pub mod Pods
pub mod Owner
pub mod Revision
pub mod Template
pub mod Process
pub mod Outdated
