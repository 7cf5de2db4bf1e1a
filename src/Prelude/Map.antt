-- ===== src/Prelude/Map.antt =====
-- A Go map with a comparable key, as an association list. The order of the list stands for
-- nothing: what the models read off a map is a lookup, a size, or a listing that is sorted.
mod Defs
mod Laws
mod Counting
mod Listing
pub use Defs.{Key}
unfoldable pub use Defs.{
  ◌≟◌, FinMap, lookup, delete, insert, IsFunctional, count_where, tally, is_set, remove_where,
}
pub use Laws.*
pub use Counting.*
unfoldable pub use Listing.{gather}
pub use Listing.{gather-perm, perm-of_lookup, In-gather, gather-In}
