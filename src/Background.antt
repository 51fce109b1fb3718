-- ===== src/Background.antt =====
-- What runs behind the web server: src/harmonist/web/dir_watcher.py, src/harmonist/web/periodic.py and
-- src/harmonist/request_load.py.
pub mod Watcher
pub mod Periodic
pub mod RequestLoad
pub mod Scans
mod Tests
