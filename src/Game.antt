-- ===== src/Game.antt =====
-- The observation of games: src/game/observation-state.ts and src/game/discord-stream-observer.ts.
pub mod Evidence
pub mod StreamObserver
pub mod Tests
