-- ===== src/Bridge.antt =====
-- entry/src/main/cpp/vlc_napi.cpp: the objects of libVLC behind integer handles.
pub mod World
pub mod Ledger
pub mod Calls
pub mod Control
pub mod Media
pub mod Equalizer
pub mod Lists
pub mod Events
pub mod Player
pub mod Windows
pub mod Surfaces
pub mod Renderers
pub mod Logs
pub mod Usage
pub mod Api
pub mod Run
