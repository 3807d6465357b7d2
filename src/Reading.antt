-- ===== src/Reading.antt =====
-- Where the reader of the home page is: the parts of frontend/src/animations that land a hash (Landing), keep
-- the reader's place while the layout is rebuilt (Anchor) and announce each section that is reached
-- (Arrivals), and the regions of frontend/src/sections/sectionIds.ts (Regions).
pub mod Regions
pub mod Landing
pub mod Anchor
pub mod Arrivals
