-- ===== src/Http.antt =====
-- app/main.py and the middlewares: what surrounds the endpoints.
pub mod Middleware
pub mod Answers
pub mod Health
