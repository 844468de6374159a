-- ===== src/CxxWrap.antt =====
-- lib/cxxwrap.cc and lib/tinu/cxxwrap.h: the C++ interface.
pub mod Traces
pub mod Tags
pub mod Wrapped
pub mod Watches
pub mod Cases
