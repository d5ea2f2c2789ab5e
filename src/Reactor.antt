-- ===== src/Reactor.antt =====
-- The reactor: channels, the poller that watches them, and the loop that serves them.
pub mod Channel
pub mod Poller
pub mod Epoller
pub mod Loop
pub mod LoopThread
pub mod EventLoop
