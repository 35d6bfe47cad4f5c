-- ===== src/Unreal.antt =====
-- src/unrealsdk/unreal: the engine's arrays, classes and objects as the library reads them.
pub mod Pointers
pub mod Delegates
pub mod Strings
pub mod Names
pub mod Params
pub mod Elements
pub mod Bools
pub mod Copies
pub mod TArray
pub mod Structs
pub mod Objects
pub mod PathNames
mod Tests
