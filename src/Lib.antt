-- ===== src/Lib.antt =====
-- MinLZ: the LZ77 block format of this repository, its decoders and its encoders.
--
-- A block is a zero byte, the size of what it decodes to as a varint, and a body: a sequence of
-- operations (literals, repeats, and copies with one, two or three bytes of offset, the last two
-- also with literals fused to them). `internal/reference` holds a readable decoder and encoder of
-- blocks; `decode.go` holds the decoder that runs when there is no assembly for the platform.
--
-- Prelude            lists, bytes and bits over the native numbers: slices by index, Boolean
--                    tests, `|` of disjoint fields
-- Bytes              uint8, uint16, uint32 and little-endian words
-- Reference          internal/reference
--   Reader           readOne, readTwo, readThree, readN; the results of the decoder and encoder
--   Decoder          the body of DecodeBlock (decoder.go): the switch on the tag is `read_command`,
--                    what follows it is `execute`, a round of the loop is `step`
--   Header           the size of a block, and DecodeBlock itself
--   Emit             emitLiterals, emitRepeat, emitCopy1, emitCopy2, emitCopy3, emitCopyLits2
--                    (encoder.go), on a slice they append to
--   Encoder          encodeBlock and EncodeBlock: `search_match` is the inner loop, `extend` the
--                    extension of a match, `emit_found` and `after_emitted` what follows
--   Reads, Total,    the decoder one read, one round and one run at a time
--   Run
--   Codes            the bytes of each emission against the decoder's switch
--   RoundTrip        the encoder's loops against the decoder's: what each emission does to the
--                    decoder's state, the search, the extension, the loop, the size, the block
-- Decode             decode.go, minLZDecodeGo
--   Machine          its variables, and the loads, stores and copies on its two slices
--                    (unsafe_disabled.go for the loads)
--   Checked, Fast    the second and the first of its loops, and the function
--   Left, Lengths,   what the destination holds where the function returns an error; no round and no
--   LeftLength       return changes its length
--   Refine           the function against the body loop of the reference decoder: windows and copies,
--                    the reads of a tag and its operands (SameParse, ParseCopies, Parse, FastParse),
--                    literals, a round of each loop (Round, FastWrite, FastRound), both loops (Whole)
-- Block              decode.go, the blocks around it
--   Header           isMinLZ, decodedLen, and the varint of encoding/binary
--   Decode           Decode, AppendDecoded, DecodedLen; the s2 package is the record `S2`
--   Sizes, Sized,    the size, what follows it and the whole block against DecodeBlock; Decode against
--   Agrees, Whole,   DecodedLen, AppendDecoded against Decode, and Decode after EncodeBlock
--   Keeps, RoundTrip
-- Emit               asm_none.go and encode.go: the emissions that write to a slice of fixed size
--   Buffer           the stores of unsafe_disabled.go, `b[n:]`, the built-in copy
--   Write            emitLiteral, emitRepeat, encodeCopy2, encodeCopy3, emitCopy, emitCopyLits2,
--                    emitCopyLits3, emitLiteralSizeN
--   Same,            what they write against what the reference encoder appends: the copies, the
--   SameLiterals,    literals, and the copies behind literals
--   SameFused
-- Index              index.go: the seek index of a stream
--   State            Index, reset, add, reduceLight, Find; sort.Search is the parameter `sort_search`
--   Spaced, Search,  the entries that add keeps, the searches of Find, the loop of reset
--   Find, Reset
--   Varint           binary.PutVarint and binary.Varint, on an int64 kept as its 64 bits
--   Format, Binary   reduce, appendTo and Load: the entries, and what is around them
--   Entries,         Load against appendTo: the entries, the whole
--   RoundTrip
--   Reduce           the loops of reduce
--   Headers          RemoveIndexHeaders and RestoreIndexHeaders
-- Level1             encode_l1.go: the fastest encoder
--   Words            load64, hash5, hash6, bits.TrailingZeros64
--   Search           the inner loop of encodeBlockGo and encodeBlockGo64K: the record `Variant` holds
--                    what differs between the two (hash, table entries, reach, fused literals), `wide`
--                    and `narrow` are the two; `search_step` is a round, `repeat_found` the repeat,
--                    `extend_back` and `extend_forward` the extensions of a match
--   Found            the emission of a match, and the loop over the matches right behind it
--   Encode           emitRemainder, the outer loops, both functions, and encodeBlock of asm_none.go
--   Mismatch, Loads, words and their bytes; the extensions; what an emission does to a buffer that
--   Extend, Advance, is written up to `d`
--   Pieces
--   Invariant,       the invariant of the loops, and each part of a round against it
--   Repeat,
--   SearchRound,
--   FoundRound,
--   Immediate,
--   AfterFound
--   RoundTrip,       the body that is written against the reference decoder; the offset that
--   Overflow         overflows
-- Level2             encode_l2.go: the balanced encoder
--   Tables           hash4, hash7, the long and the short table and what is put there behind an
--                    emission; the record `Variant` again holds what differs between
--                    encodeBlockBetterGo (`wide`) and encodeBlockBetterGo64K (`narrow`)
--   Extend           the forward extension, which goes to the end of the source
--   Search           the inner loop, with the repeat (`repeat_found`) and the long candidate at the
--                    next position (`try_next`)
--   Found, Encode    what follows a match, the outer loop, both functions; encodeBlockBetter of
--                    asm_none.go is a call of encodeBlockBetterGo. The remainder is that of Level1
--   Reaches, Below,  the extension, what the tables hold, and each part of a round against the
--   Invariant,       invariant of Level1
--   Repeat,
--   Candidates,
--   SearchRound,
--   FoundRound
--   RoundTrip        the body that is written against the reference decoder
-- Encode             encode.go: Encode, AppendEncoded, TryEncode
--   Entry            the functions; the encoder of the slowest level is the record `Levels`
--   Header,          the header, the header and the encoder of a level, the three functions
--   Compress,        against Decode
--   RoundTrip, Append
-- Stream             internal/reference/stream.go and internal/reference/index.go
--   Result           the errors of both; what may panic
--   Load             LoadIndex, LoadIndexAfterHeader
--   Read             ReadStream: `read_loop` is the loop, `read_chunk` the switch on the type of a
--                    chunk, with a function for each case; the CRC of hash/crc32 is a parameter
--   SameLoad         LoadIndex against Load of index.go
--   Frames, Ends,    the loop against a list of chunks; what the cases do as long as no stream
--   Inert, Outcome   identifier was read, and how the whole ends
-- Writer             writer.go: calcSkippableFrame and skippableFrame, which pad a stream at its end,
--   Frame, Padding     and what they do together
--   Header           makeHeader, the identifier of a stream, and ReadStream
--
-- The state of DecodeBlock is the output so far and the offset to repeat; the input that is left is
-- threaded through as a list. minLZDecodeGo has a destination of fixed size and positions in it and
-- in the source instead. Errors are values: `err` and `corrupt` are what the code returns, `panic`
-- an index out of range or a slice of negative capacity. `stuck` is no Go value: a loop of the model
-- ran out of fuel.
--
-- Fuel. Each round of a decoder takes a byte of input at least, so the length of the input is fuel
-- enough. In the encoder each search moves `s` forward, each match is 4 bytes at least, and an
-- extension stops at the end of the source, so the length of the source is enough for each loop.
-- The loop of reset doubles a positive number up to 2^20, which takes 20 rounds at most, and that of
-- reduce stops when it would remove all entries but one.
-- The loops of the fastest encoder move `s` forward by four at least, and its extension by eight, so
-- the length of the source is enough for each of them as well. In the balanced encoder every round
-- of a loop moves a position below the end of the source forward by one at least.
-- Each round of ReadStream takes four bytes, so the length of the stream and one are enough.
-- The loop of calcSkippableFrame adds one at least up to four: it ends within fuel 4.
-- A varint below 2^64 has ten groups at most: nine rounds of more.
--
-- Numbers. A slice of bytes, a block among them, is a list of numbers below 256. A Go
-- `int` is a ℕ: no value of it goes below zero or near 2^63 in a block, since sizes
-- are 8 MiB at most and lengths are below 2^24 + 64. Machine words keep their wrap-around (u8, u16,
-- u32). A test with a difference that could be negative is written as a sum.
-- Offsets of an index are ℕ too, far below 2^63, and a total that is not known is `none`.
--
-- Not modelled: the debug output; the rest of index.go (LoadStream, IndexStream, JSON); the s2
-- package, to which Decode falls back; encodeBlockBetterDict, which no entry point calls, and the
-- encoder of encode_l3.go; reader.go and the rest of writer.go, which are buffers, goroutines and
-- I/O around the blocks; the conversion from LZ4; the assembly; cmd/mz.
pub mod Prelude
pub mod Bytes
pub mod Reference
pub mod Decode
pub mod Block
pub mod Emit
pub mod Index
pub mod Level1
pub mod Level2
pub mod Encode
pub mod Stream
pub mod Writer
