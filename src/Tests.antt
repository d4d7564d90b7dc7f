-- ===== src/Tests.antt =====
-- Runs on concrete inputs: a small kernel that meets the assumptions on system calls, tests, and the
-- theorems at inputs that exercise the code.
pub mod Kernel
pub mod Protocol
mod Stream
mod Server
mod Udp
mod Injector
mod Client
