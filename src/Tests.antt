-- ===== src/Tests.antt =====
-- The theorems at concrete inputs, each in the file of its part, over the small instances of
-- Fixtures.
mod Fixtures
mod Admin
mod Privacy
mod Backfills
mod Anchors
mod Trading
mod Parts
mod Codecs
