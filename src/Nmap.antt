-- ===== src/Nmap.antt =====
-- What a scan may reach: app/modules/scans/targets.py and app/modules/scans/nmap/command.py.
pub mod Targets
pub mod Command
pub mod Allowed
pub mod Argv
pub mod Families
pub mod Findings
pub mod Samples
