-- ===== src/Zonegen.antt =====
-- internal/zonegen: from the records of a zone to the text of its zone file. The modules below are
-- the files serial.go and collisions.go, and the parts of generator.go.
pub mod Serial
pub mod Names
pub mod Order
pub mod Render
pub mod Generator
pub mod Restart
pub mod Collisions
mod Tests
