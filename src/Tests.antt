-- ===== src/Tests.antt =====
-- Concrete runs of the modelled code, one for each result that has conditions.
mod Loops
mod Web
mod Engines
mod Legs
mod Pages
mod Gateway
mod Answers
mod Hits
mod Memory
