-- ===== src/Ring.antt =====
-- Circular doubly linked lists, as proc.c keeps them through `next_same_prio`, `prev_same_prio` and
-- `next_sibling`, `prev_sibling`: what the two link functions say of a list of members.
pub mod Closed
pub mod Insert
pub mod Remove
pub mod Rotate
mod Defs
pub use Defs.{
  Linked, Seg, IsRing, prev-stop, next-start, ring-next, ring-prev, IsRing-congr, Seg_congr,
  ring-Distinct, ring-head,
}
