-- ===== src/Manual.antt =====
-- The search page of the generated manual: docs/manual/html/search/search.js, and the
-- sections and tables of its pages: docs/manual/html/dynsections.js.
pub mod Ids
pub mod Results
pub mod Box
pub mod Names
pub mod Prefixes
pub mod Panel
pub mod Sections
pub mod Directory
pub mod Folding
pub mod Stripes
pub mod Folders
pub mod Navigation
pub mod Creating
pub mod Created
