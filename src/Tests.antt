-- ===== src/Tests.antt =====
-- Runs of the library's model on small inputs. Each child module applies the theorems of one part.
pub mod Files
pub mod Layouts
pub mod Points
pub mod Readers
pub mod Windows
pub mod Interpreter
pub mod Bindings
pub mod Written
pub mod Values
