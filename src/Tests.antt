-- ===== src/Tests.antt =====
-- The theorems at concrete inputs: a table of the working hours, a server that refuses, a directory
-- of three files, a session of a terminal and of a desktop, an asset, a role and a recording.
mod AccessRuns
mod AssetsRuns
mod BatchRuns
mod DashboardRuns
mod FilesRuns
mod FormsRuns
mod LayoutRuns
mod PlaybackRuns
mod RequestRuns
mod ScheduleRuns
mod SettingsRuns
mod TablesRuns
mod UtilsRuns
