-- ===== src/RtuServer.antt =====
-- rtu_server/rtu_server_data_handler.cpp: the sample RTU server.
pub mod Monad
pub mod Replies
pub mod Memory
pub mod Output
pub mod Sending
pub mod Registers
pub mod Writing
pub mod WriteReplies
pub mod Operations
pub mod EachMethod
pub mod OneEach
pub mod Reading
pub mod Answers
pub mod Cells
pub mod Bits
pub mod CoilReads
pub mod CoilWrites
pub mod Device
pub mod Serving
pub mod ServingAll
pub mod CoilsBack
pub mod Silence
pub mod Framed
pub mod Session
pub mod Starting
pub mod Program
pub mod Alike
pub mod AlikeReplies
pub mod Contents
pub mod Overlap
pub mod Loop
pub mod Balance
