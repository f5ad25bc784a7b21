-- ===== src/Terminal.antt =====
-- web/src/app/page.tsx: the terminal of the landing page, its paths, file system, command lines and
-- history.
pub mod Path
pub mod Files
pub mod History
pub mod Calculator
pub mod Variables
pub mod Commands
pub mod Run
pub mod Shell
