-- ===== src/Examples.antt =====
-- Concrete inputs of src/fl_read_ledger.hpp, src/framelink_memory.cpp, src/framelink_session.cpp,
-- src/framelink_linux.cpp, src/fl_metadata.hpp, src/fl_buffer_refs.hpp and src/fl_layout.h,
-- src/fl_ipc_posix.cpp, gst/framelink_session_context.cpp and src/runtime, at which the theorems'
-- hypotheses hold.
mod Reading
mod Policies
mod Formats
mod Rings
mod Channels
mod Packets
mod Sessions
