-- ===== src/Examples.antt =====
-- Examples: data of one small project, and the theorems applied to it.
pub mod Data
pub mod Machine
mod ClientExamples
mod SessionExamples
mod StreamExamples
mod PageExamples
mod TerminalExamples
mod ShellExamples
mod CalculatorExamples
mod RunExamples
mod TabExamples
mod SsoExamples
mod AccessExamples
mod UtilsExamples
