-- ===== src/Tests.antt =====
-- Runs of the model on concrete inputs.
mod Data
mod Serving
mod Threads
mod Scheduling
mod Offers
mod Program
mod Outside
mod Yaml
mod Starting
mod Reports
