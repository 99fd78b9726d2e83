-- ===== src/Collector.antt =====
-- The collector (collector): the kind of a control group and its pod from its path, the rows of the
-- two maps, and the metrics of each pod.
pub mod Classify
pub mod KubePath
pub mod Rows
pub mod Read
pub mod Resolver
pub mod Metrics
pub mod Series
pub mod Loop
