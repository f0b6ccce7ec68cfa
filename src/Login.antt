-- ===== src/Login.antt =====
-- What stands before a login: the connection limiter of src/ban.cpp and the waiting list of
-- src/waitlist.cpp.
mod Tests
pub mod Ban
pub mod WaitList
