-- ===== src/Lib.antt =====
-- A verification of the C++ SDK of ODPS (MaxCompute): the tunnel's record format and the parts of
-- the client below it. Each definition is a translation of the C++ code that it names.
--
-- The parts and their files:
-- - Types: include/odps_types.h and common/odps_types.cpp, the column types, the type description
--   ODPSColumnTypeInfo (without nullability, column id and default value), and the constructor and
--   operator < of TimeStamp, whose seconds are integers that do not overflow.
-- - Utf8: util/string_util.cpp's FindNextCharUtf8 and tunnel/serialize.cpp's TrimOrPadding.
-- - Serialize: tunnel/serialize.cpp. Serialize/External is what the code takes from protobuf
--   (WireFormatLite), boost's checksum and the JSON library: parameters, with protobuf's documented
--   behaviour as laws. Serialize/Value and Nested are the values inside an array, map or struct
--   (WriteNestedValue, WriteComplexValue, ReadNestedValue, ReadComplexValue), Serialize/Cell one column
--   of a record (WriteCell and the cases of Deserialize), Serialize/Record the stream (Serialize,
--   Complete and Deserialize with its end tags, count, metrics and checksums). Nested/Fits relates each
--   value to the one that is read back. A map has its keys with their indices (common/odps_map.cpp).
-- - Pool: common/curl_connection_pool.cpp, the pool of connections and the guard that gives one back.
-- - TypeText: common/complex_type_schema.cpp, the text of a column type: TypeText/Print (ToTypeString) and
--   TypeText/Parse (TypeInfoStringTokenize, the constructor from tokens, ParseTypeInfoString). boost's
--   trim and lexical_cast are parameters with laws. The parser's fuel is the number of tokens and one
--   more, since each type and each member takes a token.
-- - Base64: util/base64.cpp, Base64Encoding and Base64Decoding. Shifts and masks of a byte are quotients
--   and remainders; the decoder's fuel is the length of its input and one more, since a group takes a
--   character.
-- - Predicate: max_storage_api/predicate.cpp, the text of filter predicates; Predicate/Reader is a reader
--   of such texts and Predicate/Value the Boolean meaning of a predicate, both ours. The loop that
--   escapes back-ticks has the length of the name and one more as its fuel; each turn passes one.
-- - Strings: util/string_util.cpp's SplitString, on fuel of one more than the length of the string.
-- - Upsert: tunnel/upsert_stream.cpp with RecordPack of tunnel/record_pack.cpp, and LoadSlots of
--   tunnel/upsert.cpp. A record and the sizes of the buffers are parameters; so is the list of what
--   becomes of the attempts to send a pack, and a retry loop for which it is too short ends with
--   out_of_fuel. That a failed request delivered nothing, and that the serializer takes every record, is
--   assumed; the columns of a partial update, metrics, locks and UpdateSlot are not modelled.
-- - Volume: tunnel/volume_serialize.cpp, the chunks in which the data of a volume travels, over protobuf's
--   streams and boost's CRC as parameters. Each turn of Write's loop ends a chunk or writes a byte at
--   least, and no chunk is empty, so its fuel is twice the length of the data.
-- - Members: common/odps_array.cpp and common/odps_struct.cpp, the typed getters and setters over pointers
--   without a type. An array, map or struct inside is a parameter; two arrays or structs never share
--   elements.
-- - Signer: common/signer.cpp, the canonical string and AliyunRequestSigner; Signer/Accounts has the signers
--   of the other accounts. A std::map is the list of its entries in their order; HMAC and the date are
--   parameters.
-- - Address: util/address.cpp, the constructor of an address.
-- - Slots: the slots of a streaming upload (tunnel/slot.h and tunnel/stream_upload.cpp: LoadSlots,
--   NextSlot, UpdateSlot, DisableSlot, CheckSlots, and what Reload and OnWriteRecordPack do with them). The
--   answers of the server, rand() and the clock are parameters; a call reads the clock once. The loop
--   of NextSlot has one turn more than there are slots.
-- - Upload: tunnel/upload.cpp's Commit with a list of blocks, and the retries of tunnel/util.cpp and
--   tunnel/util.h; the responses are parameters.
-- - TableRecord: include/odps_table.h and tunnel/odps_table_record.cpp, the typed columns of a record over
--   raw bytes and buffers. Bytes keep the type they were written with, so that a read as another
--   type is the error `undefined`; TableRecord/Interface has the public setters of one type each and not
--   those that take the type as an argument.
-- - Hash: the hash of the key columns of an upsert (include/runtime/runtime_hash.h and
--   tunnel/hash_helper.h), over the getters of TableRecord. Words are numbers below 2^32 or 2^64.
-- - Prelude and Result: shared helpers, and the outcomes of code that throws.
--
-- Conventions: a byte string is a list of numbers, a stream is the list of its bytes, a float is its bit
-- pattern; an int64_t is an integer whose range is a hypothesis where it matters. An exception is an
-- error value. The loop of Deserialize runs on fuel, one more than the length of the input, which is
-- enough because each turn takes a tag, and a tag takes a byte at least.
-- Times of the pool are not negative; its lock makes an operation one step.
--
-- Not modelled: HTTP, REST, Arrow and compressed streams, digests, logging, the coded streams that are
-- opened anew at the byte limit (they change no byte), the dates as text of arrays and structs.
pub mod Prelude
pub mod Result
pub mod Types
pub mod Utf8
pub mod Serialize
pub mod Pool
pub mod TypeText
pub mod Base64
pub mod Predicate
pub mod Strings
pub mod Slots
pub mod Upload
pub mod TableRecord
pub mod Hash
pub mod Address
pub mod Volume
pub mod Upsert
pub mod Members
pub mod Signer
