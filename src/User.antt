-- ===== src/User.antt =====
-- The user library, user/userlib/src, the console server, user/programs/console/src/main.rs, and the
-- line editor of the shell, user/programs/shell/src/main.rs.
pub mod Ipc
pub mod Calls
pub mod Rpc
pub mod Delivery
pub mod Answers
pub mod Io
pub mod Console
pub mod Terminal
pub mod Output
pub mod Input
pub mod Shell
pub mod Edit
pub mod Keys
pub mod Editor
