-- ===== src/Text.antt =====
-- flashlight/lib/text: dictionaries of tokens and the tries that decoders search.
pub mod Dictionary
pub mod Replabels
pub mod Trie
pub mod PartialFileReader
pub mod Tokenizer
pub mod Decoder
pub mod Utf8
pub mod Lexicon
mod Tests
