-- ===== src/Predictor.antt =====
-- include/RIPSimulator/BranchPredictor.h: the subclasses, one module each, and in `Dispatch` the
-- base class with the virtual calls. The interactive predictor, which asks another process, is
-- left out.
pub mod Index
pub mod OneBit
pub mod TwoBit
pub mod Gshare
pub mod Perceptron
pub mod Dispatch
pub mod Counters
pub mod Weights
