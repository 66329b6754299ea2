-- ===== src/Metric.antt =====
-- Metrics: include/pubsub/metric.h, include/pubsub/metrictype.h, include/pubsub/metricproperty.h,
-- src/metric.cpp and the type table of src/payloadhelper.cpp.
pub mod TypeCode
pub mod Numbers
pub mod Defs
pub mod Values
