-- ===== src/Json.antt =====
-- The values of `nlohmann::json`, the vendored library that the program's messages are made of, and
-- the queries that the program makes of them. Text, parsing and number conversion are the record
-- `JsonLibrary` of Json/Library.antt, which the program's functions take as an argument.
mod Value
mod Objects
mod Library
unfoldable pub use Value.*
unfoldable pub use Objects.*
unfoldable pub use Library.*
