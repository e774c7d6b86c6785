-- ===== src/Pipeline/Latency/Examples.antt =====
-- An utterance of one second, with its marks in nanoseconds.
