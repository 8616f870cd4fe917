-- ===== src/Db.antt =====
-- A service's connection to its database. Each statement may fail for a reason outside the program
-- (a lost connection, a timeout, a full disk): the environment chooses, by the list `faults`, which
-- statements do. A failed statement changes no row. The Go methods that return `(T, error)` are
-- actions: they return a value, an error of the domain package, or an error of the database.
mod Defs
pub mod Ensures
pub mod Keeps
unfoldable pub use Defs.*
