-- ===== src/Tests.antt =====
-- Runs of the model on small inputs, and the theorems at inputs that meet their hypotheses.
mod Inputs
mod Loop
mod Queue
mod Routing
mod Shop
mod Connections
mod Configuration
mod Writes
mod Workers
mod Texts
mod Runs
mod Sites
mod HttpFrontEnd
mod Trips
mod Kept
mod Repeats
mod Starts
mod Opening
mod Jams
mod Leaving
mod Races
mod Segments
