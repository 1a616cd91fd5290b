-- ===== src/Kernel.antt =====
-- The modified Linux kernel: kernel-and-more/board/linux-imx.
pub mod Seeds
pub mod Params
pub mod Initcalls
pub mod Start
pub mod Startup
pub mod RestInit
pub mod TimerRegs
