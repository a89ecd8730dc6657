-- ===== src/Commands/Broker/Outcome.antt =====
-- What the command for the broker has done when it ends.
