-- ===== src/Resolver.antt =====
-- src/hashtree/reader.ts, `PathResolver`: the walk from a root to a path, and the reading of a file.
-- The blob fetcher and the manifest cache are interfaces. Abort signals and the release of the
-- temporary files are left out.
pub mod Step
pub mod Fetch
pub mod Plan
pub mod Walk
pub mod Stream
pub mod Streams
pub mod Runs
pub mod Fetches
pub mod Loads
pub mod Trees
pub mod Files
mod Paths
pub mod Integrity
pub mod Answers
pub mod Listings
