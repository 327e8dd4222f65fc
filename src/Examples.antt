-- ===== src/Examples.antt =====
-- The theorems at concrete inputs, and runs of the definitions.
mod Keys
mod Elements
mod Groups
mod Searches
mod Maps
mod Iterators
mod Rationals
mod Facets
mod Attributes
mod Packets
mod QuickTime
mod Accessors
