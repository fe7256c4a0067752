-- ===== src/Models.antt =====
-- The rows of the database, table by table: the Django models of the apps, with the columns that
-- the services read or write. `created_at` and `updated_at` stand where a service or a query reads
-- them. A foreign key is the key of the row it refers to, a nullable column is an `Option`, and an
-- instant is a natural number of microseconds.
mod Choices
mod Rows
unfoldable pub use Choices.*
pub use Rows.*
