-- ===== src/Examples.antt =====
-- The development at concrete inputs.
mod Regions
mod Levels
mod Outputs
mod Integers
mod Locations
mod Numbers
mod Cache
mod Reads
mod Masks
mod Stores
mod Work
mod Selections
mod Tiles
mod Merges
mod Passes
mod Fringes
mod Plans
mod Composites
