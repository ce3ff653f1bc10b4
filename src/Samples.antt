-- ===== src/Samples.antt =====
-- Runs of the definitions on small inputs, and uses of the theorems at such inputs.
mod Log
mod State
mod Jobs
mod Net
mod Hooks
mod Fleet
mod Access
mod Requests
mod Tables
mod Routes
mod Secrets
mod Web
mod Bills
