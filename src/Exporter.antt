-- ===== src/Exporter.antt =====
-- manager/src/rpc/metrics_exporter.cpp: the HTTP side of the manager. Query, Filename, Flamegraph,
-- Pipeline, Events and Metrics are the functions that make the pages, Request is what `serve_loop`
-- does with the bytes of one connection, and Server the loop around it.
pub mod Pipeline
pub mod Query
pub mod Filename
pub mod Flamegraph
pub mod Events
pub mod Metrics
pub mod Request
pub mod Server
