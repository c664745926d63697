-- ===== src/Tests.antt =====
-- Tests of the definitions on concrete inputs, and each theorem at an input that meets its
-- hypotheses.
mod Platform
mod Follower
mod Transport
mod Correlation
mod Node
mod Edge
mod Bench
mod Episodes
mod Remote
mod Batches
mod Engines
mod Lives
