-- ===== src/StringUtil.antt =====
-- The text comparison that the program takes from the external library `util/stringutil.h`, as an
-- interface with the documented behaviour of its two members, and the ordered maps that compare
-- their keys by it: `std::map<std::string, T, util::string::IgnoreCase>`.
pub mod Interface
pub mod Map
pub mod Ascii
pub use Interface.*
