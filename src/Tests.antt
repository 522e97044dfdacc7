-- ===== src/Tests.antt =====
-- Runs of the program's parts on concrete inputs, and the theorems at such inputs.
mod World
mod GitConfig
mod Paths
mod Syncs
mod Loops
mod Hooks
mod Init
mod Programs
mod Logins
mod Ends
mod CommandLine
mod Server
mod Notify
mod Publish
mod Starts
