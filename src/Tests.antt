-- ===== src/Tests.antt =====
-- Runs of the model at concrete data, and the theorems at inputs where their hypotheses hold.
mod Tables
mod Store
mod Sample
mod Recovery
mod Listing
mod Resources
mod Helpers
mod Passes
mod Whole
mod Keys
mod Objects
mod Routes
mod Templates
