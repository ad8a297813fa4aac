-- ===== src/Cpp.antt =====
-- The C++ layer, include/questdb/ingress/line_sender.hpp, over the functions of the C header.
pub mod Wrapped
pub mod Timestamps
pub mod Overloads
pub mod Opts
pub mod LineSenderBuffer
pub mod LineSender
