-- ===== src/Schedule.antt =====
-- The weekly time table of the login policies (web/src/dd/drag-weektime/DragWeekTime.js): its
-- cells, the text of a day's intervals, the handlers, and the proofs about them.
pub mod Cells
pub mod Splicing
pub mod Labels
pub mod Render
pub mod Grid
pub mod Selection
pub mod Intervals
pub mod Written
pub mod RoundTrip
pub mod Highlight
pub mod Zones
