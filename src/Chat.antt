-- ===== src/Chat.antt =====
-- app/routers/chat.py: the handler of chat completions and its stream.
--
-- A provider and its stream are arguments. A stream is the sequence of its arrivals: each says how
-- long the program was busy before it asked (`pause`), how long the stream then took (`wait`), and
-- what came. An answer that comes at the deadline is late. A stream that has no more arrivals never
-- answers again.
pub mod Stream
pub mod Dispatch
pub mod Handler
mod Tests
