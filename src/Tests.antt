-- ===== src/Tests.antt =====
-- Runs of the models at fixed inputs, and each theorem at an input that meets its hypotheses.
mod Transport
mod Profile
mod Maps
mod Flights
mod Words
mod Streams
mod Tools
mod Environment
