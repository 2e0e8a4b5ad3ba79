-- ===== src/Retirement/Retire/Safety.antt =====
-- What RetireSession has established when it returns a result.
