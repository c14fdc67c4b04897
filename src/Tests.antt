-- ===== src/Tests.antt =====
-- Runs of the model on small inputs, and the theorems at concrete inputs.
mod Text
mod Strings
mod Number
mod Parse
mod Lookup
mod Stream
