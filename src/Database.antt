-- ===== src/Database.antt =====
-- internal/embydb: the writing of a plan's technical information into the database of an Emby server.
pub mod Values
pub mod Tables
pub mod Rows
pub mod Item
pub mod Schema
pub mod Apply
pub mod TableLaws
pub mod Written
pub mod Step
pub mod Loop
pub mod Whole
pub mod Done
pub mod Again
pub mod Backups
pub mod Retention
pub mod Fit
pub mod Types
