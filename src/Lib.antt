-- ===== src/Lib.antt =====
-- Verification of flashlight, a C++ machine-learning library.
--
-- The parts that are modelled are those whose own logic decides what a program computes:
--
-- * Datasets (flashlight/fl/dataset). A dataset is an index-to-sample function with a size; every
--   other dataset is a view of one or several. Dataset.antt holds the abstract class and the check
--   of an index, and each view has a file below it: Dataset/Concat.antt (ConcatDataset),
--   Resample.antt, Shuffle.antt, Merge.antt, Transform.antt, Batch.antt (BatchDataset) with
--   Batching.antt (makeBatch and makeBatchFromRange), and Partition.antt (partitionByRoundRobin).
-- * Prefetching and packing, also of flashlight/fl/dataset. Dataset/Prefetch.antt
--   (PrefetchDataset) and Dataset/DynamicPartition.antt (dynamicPartitionByRoundRobin).
-- * Strings (flashlight/lib/common/String). Strings.antt; a std::string is the list of its bytes.
-- * Text (flashlight/lib/text). Text/Dictionary.antt (Dictionary), Text/Lexicon.antt,
--   Text/Utf8.antt and Text/Replabels.antt (loadWords, createWordDict, splitWrd, packReplabels and
--   unpackReplabels of dictionary/Utils.cpp), and Text/Trie.antt (the trie of the decoders). They
--   split lines with Strings.
-- * Tokenizing (flashlight/lib/text/tokenizer). Text/PartialFileReader.antt reads one worker's
--   share of the lines of a file, and Text/Tokenizer.antt counts the tokens of all the shares with
--   it.
-- * Decoding (flashlight/lib/text/decoder). Text/Decoder.antt has the beam of Utils.h, and
--   Text/Decoder/LexiconFree.antt the lexicon-free decoder, which takes its language model as a
--   record of operations. Text/Decoder/Parents.antt, Beam.antt, Links.antt and Sound.antt follow
--   the parents of the hypotheses through the beam and the frames. The transitions are the
--   decoder's own vector, and reading it out of range is undefined; a run of
--   Text/Decoder/Tests.antt shows that this can happen with ASG.
-- * Sequence criteria (flashlight/lib/sequence/criterion). Criterion/ViterbiPath.antt.
-- * Automatic differentiation (flashlight/fl/autograd). Autograd.antt has the graph of Variable,
--   with a gradient function that says what it adds to which input, and the backward pass.
-- * Common library (flashlight/lib/common). ProducerConsumer.antt has the calls of
--   ProducerConsumerQueue between two waits, and ProducerConsumer/Threads.antt the threads that
--   make them, a list of events for each interleaving.
-- * Meters (flashlight/fl/meter). Meter/EditDistance.antt, with edit scripts as the specification
--   of the distance in Meter/EditDistance/Script.antt.
-- * Memory (flashlight/fl/memory). Memory/Caching.antt has the blocks, pools and sizes of
--   CachingMemoryManager, and Memory/Caching/Calls.antt its operations: a state of one device,
--   with a heap of blocks, is passed on, also past an exception. A pool that names a block which
--   is not in the heap is undefined behaviour. Memory/Caching/Cleanup.antt is about the cleanup
--   before a second native allocation.
--
-- Prelude.antt and the files below it hold what the parts share: the results of calls, maps,
-- integers, and lemmas on lists. Each part has a Tests.antt with the theorems at concrete inputs.
--
-- How the code is read. A call returns a Result: a value, or the standard exception that is
-- thrown; `undefined_behaviour` stands for what C++ leaves undefined, so a theorem that says `ok`
-- also says that this does not happen. Counts and sizes that are never negative are natural
-- numbers; an argument that a caller may pass negative is a ℤ, and the code's own test of it is
-- kept. Sizes stay below 2^53 (below 2^31 where the code keeps an `int`), so no machine addition
-- wraps; Memory.Caching keeps the wrap-around of size_t written out. A null pointer or a null
-- std::function is `none`. An uninitialised member is an argument of the definition that reads it.
--
-- Scores are of a parameter type with the operations that the code uses of float or double; where
-- a theorem needs laws of their order they are a record (Prelude.Scores.IsOrdered,
-- Text.Decoder.Beam.IsThreshold), which says nothing of NaN. A std::sort is an insertion sort, and
-- an std::unordered_map is walked in the order in which its keys came.
--
-- What is not in the repository is a parameter: ArrayFire arrays (Dataset.Batching.Arrays, whose
-- laws hold for assignments within the extents; Dataset/Tests/Images.antt is an array type that
-- has them), the random engine and its distribution (Dataset.Shuffle), the native allocator
-- (Memory.Caching.Calls). std::vector, std::upper_bound, std::iota, std::swap and std::partial_sum
-- are modelled by what the standard says of them.
--
-- Fuel. The loops of split and replaceAll take one round more than the string has bytes (Strings),
-- splitWrd one for each byte (Text.Utf8), the search for a free index one more than there are
-- indices (Text.Dictionary), and the packing two for each sample (Dataset.DynamicPartition): every
-- round moves on by a byte, a key or a sample, only that a sample which opens a batch is looked at
-- twice. The reading of lines takes two rounds more than the file has bytes
-- (Text.PartialFileReader), and the visit of a graph one for each variable up to the root
-- (Autograd).
--
-- Not modelled: the other decoders, the pruning of the lexicon-free one and the language models,
-- smearing of the trie, the other sequence criteria, the Hungarian assignment, the blob datasets,
-- the other meters and DefaultMemoryManager; the tensor, neural-network, optimiser and distributed
-- layers, which are glue over ArrayFire, cuDNN, NCCL and MPI; the applications' programs; vendored
-- code; and bindings.
pub mod Autograd
pub mod Criterion
pub mod Dataset
pub mod Memory
pub mod Meter
pub mod Prelude
pub mod ProducerConsumer
pub mod Strings
pub mod Text
