-- ===== src/Kalloc.antt =====
-- kalloc.c: the allocator of physical pages.
mod Defs
pub mod Chain
pub mod Ownership
pub mod Range
mod Examples
pub use Defs.{Kmem, pgsize, kernbase, phystop}
unfoldable pub use Defs.{v2p, page_round_up, bad_page, junk, kfree, kalloc, free_pages, freerange}
