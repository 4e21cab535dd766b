-- ===== src/Lib.antt =====
-- innoextract, a program that unpacks installers made with Inno Setup: a model of its core.
--
-- The program finds the setup data in an installer, decodes its headers, and writes the files that
-- they describe. Modelled are the parts that compute: the checksums and the cipher that guard the
-- data, the filters that check blocks and restore executables, the loaders that read headers from a stream, and the
-- interpretation of what was read, as file names and expressions.
--
-- Base: tests on numbers, lists, bits, bytes and words, shared by all parts.
--
-- Crypto: src/crypto. Crypto.Crc32 is crc32.cpp (`init`, `update` with its loops `align_loop`,
-- `word_loop` and `byte_loop`, `finalize`), Crypto.Adler32 is adler32.cpp (`update`), and
-- Crypto.Arc4 is arc4.cpp (`init`, `update`, `discard`, `crypt`). The address of the data, which
-- decides where the CRC32 loops part, and the width of `uint_fast32_t` are parameters.
-- Crypto.IteratedHash is the buffering of iteratedhash.hpp (`update`, `hash`, `pad`, `finalize`), with
-- the compression function as a record; Crypto.Md5 and Crypto.Sha1 are the two that md5.cpp and
-- sha1.cpp fill in. Crypto.Checksum is checksum.cpp and Crypto.Hasher is hasher.cpp, which chooses among
-- the four. The width of `size_t` is a parameter of `update`.
--
-- Stream.Exe4108 and Stream.Exe5200: `inno_exe_decoder_4108` and `inno_exe_decoder_5200` of
-- src/stream/exefilter.hpp. The source of a filter is a parameter, with the `get` and the `read` of
-- boost::iostreams. The three states of the newer decoder are a data type, and what a call of `read`
-- returns, writes and leaves is a record.
--
-- Stream.Block: `inno_block_filter` of src/stream/block.cpp, which checks the CRC32 checksum of every
-- chunk; Stream.Block.Header is the header that `block_reader::get` reads in front of them. Here too
-- the source has the `read` of boost::iostreams. The address of its buffer is a parameter.
--
-- Stream.Slice: `slice_reader` of src/stream/slice.cpp, which opens the files of an installer one behind
-- the other. The files are a function from names to contents. A search past the table of magic numbers,
-- which has no defined result, is a result of its own. The fuel of its read is an argument.
--
-- Setup.Load: src/util/load.hpp, src/util/load.cpp and src/util/storedenum.hpp. A reader takes the
-- bytes to come to a value and the bytes behind it, or to `none`, which is the exception of a
-- stream that ends. Conversion to UTF-8 is a parameter.
--
-- Setup.Entry: a loader per entry of the headers, with the fields that each version of Inno Setup
-- stores: src/setup/directory.cpp, delete.cpp, ini.cpp, component.cpp, task.cpp, type.cpp,
-- registry.cpp, run.cpp, icon.cpp, message.cpp, permission.cpp and language.cpp, and what they share
-- in item.cpp and windows.cpp. A set of flags is the list of its flags; a signed number is its bit
-- pattern.
--
-- Setup.Entry.File and Setup.Entry.Data are file.cpp and data.cpp, whose entries describe files and
-- where their data lies.
--
-- Setup.Header: `header::load` and `header::decode` of src/setup/header.cpp. The strings, the numbers of
-- entries and the settings are a record each, with a child module each; the settings that older versions
-- store as options are derived behind them, as in the code.
--
-- Setup.Info: src/setup/info.cpp. `try_load` reads the header, the languages, the entries in their order
-- and the images from one block, and the data entries from the next. Setup.Info.Retry is
-- `info::load`, which tries the versions that an ambiguous one may stand for; what `try_load` does for a
-- version is a parameter there: it loads without a warning, with one, or throws.
--
-- Setup.Version: the known versions of src/setup/version.cpp, their order, and `next`.
--
-- Setup.Expression: the evaluator of src/setup/expression.cpp. Its state is a record; its exceptions
-- are values.
--
-- Setup.Filename: src/setup/filename.cpp, with variables, separators and `..`, on platforms other
-- than Windows.
--
-- Loops whose end is not plain recursion take fuel. The evaluator of expressions gets eight units for
-- each byte of the text and eight more, since a factor descends through few functions before it takes
-- a byte. The expansion of variables gets one more than the bytes of its text, the shortening of paths
-- one for each byte, and the loops that read strings and blocks, and those of the decoders, one for each
-- byte that is asked for: each of their rounds takes or gives at least one byte. The loop of a hash has
-- one for each byte of its input. The loop over versions has 2^32: each round takes a greater version of
-- 32 bits. A read of n bytes across k more slices needs n + k.
--
-- Not modelled: the filters of boost and of liblzma that are stacked on a block, the chunks and files
-- of src/stream, the search for the setup data (src/loader), and the identifier that a version is
-- read from. Warnings that are logged have no effect on what is read and are not modelled either, but for
-- whether there was one in an attempt of Setup.Info.Retry. The encodings come from other libraries, and `parse_time` from the system. The names of
-- flags and values, the command line, the web page, logging and the file system only carry input and
-- output.
pub mod Base
pub mod Crypto
pub mod Setup
pub mod Stream
