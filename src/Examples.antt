-- ===== src/Examples.antt =====
-- Instances of the theorems at concrete inputs, and tests of the definitions, one child for each
-- program.
mod OfTreeProp
mod OfRwLock
mod OfCore
mod OfCounters
mod ListQueues
mod OfTimers
mod OfWaitSignal
mod OfRewriteHeader
mod OfFiboquick
mod OfTscKmod
mod OfHelloWorld
mod OfFibonacci
mod OfBenchmark
mod OfFiles
