-- ===== src/Database.antt =====
-- The tables that the financial core reads and writes (prisma/schema.prisma), and calls against
-- them as a state and error monad. The rows keep the columns on which the code decides; a DECIMAL(14,2)
-- column is an integer number of hundredths, a DateTime a number of milliseconds, a cuid a number,
-- and free text a list of code points.
mod AuditRows
mod BookRows
mod FundingRows
mod Rows
mod Monad
mod Write
mod Outcome
mod Packages
mod Effects
pub use AuditRows.*
pub use BookRows.*
pub use FundingRows.*
pub use Rows.*
unfoldable pub use Monad.*
unfoldable pub use Write.*
pub use Outcome.*
pub use Packages.*
pub use Effects.*
