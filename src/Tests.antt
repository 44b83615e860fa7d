-- ===== src/Tests.antt =====
-- Runs of the definitions on small inputs, and the theorems at concrete inputs.
mod Sample
mod Images
mod Owners
mod Scans
mod Limits
mod Configured
mod Annotating
mod Reconciling
mod Webhooks
mod Restarting
mod Cooling
mod Ticking
mod Starting
