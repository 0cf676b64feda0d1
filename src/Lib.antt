-- ===== src/Lib.antt =====
-- A model of sorug, a URL parser that follows the WHATWG URL standard, and its correctness.
--
-- Text is a list of bytes, as the source handles it; a byte is a number below 256.  A function
-- that writes to an output buffer takes the bytes it holds and returns those it holds
-- afterwards.
--
-- - Common: names of the library, Boolean tests, lists over native numbers, bytes, bit
--   operations.
-- - Scan, for src/parser/scan.rs: the searches that cut a URL into its parts. Scan/Swar has the
--   word-wise loops (eight bytes to a 64-bit word, wrap-around written out), Scan/Delims the
--   searches that are built on them. Scan/Lanes, Scan/Marks and Scan/Find prove the word-wise
--   loops right, Scan/Delims/Laws and Scan/Delims/Host the searches. Scan/Backward has the
--   search for the last at sign. Scan/Memchr is the memchr crate, a parameter: the first (or
--   last) index of a needle, as its documentation says.
-- - Percent, for src/parser/percent.rs: Percent/Sets has the encode sets, Percent/Codec the
--   encoders and the decoder; Percent/Encode, Percent/Decode, Percent/Reference and
--   Percent/Clean their theorems.
-- - Buffer, for src/parser/serialization.rs: the buffer into which the parser writes the href,
--   which borrows from the source text as long as what is written is what the source says
--   (Buffer/Defs), and `Backing` of src/lib.rs, what it turns into (Buffer/Backing). The pointer
--   comparison in `push_str` is a Boolean argument; a caller may pass true only for the slice
--   that comes next. A method of `String` that panics is `none`. Buffer/Refines, Buffer/Edits
--   and Buffer/ZeroCopy hold the theorems.
-- - SearchParams, for src/search_params.rs: the form encoding (SearchParams/UrlEncoded) and the
--   list of name/value pairs (SearchParams/Collection, of which `sort` takes the `sort_by` of
--   the standard library as an argument). The parser's loop runs on fuel, the length of its
--   input, and each round takes at least one byte. Which bytes are UTF-8, and what
--   `from_utf8_lossy` makes of others, is a parameter (`Utf8`).
-- - Punycode, for the decoder (Punycode) and the encoder (Punycode/Encoder) of
--   src/parser/punycode.rs. A checked operation that overflows is `none`. The decoder's loop
--   over the numbers has the length of its text as fuel, as each takes a byte; the loop that
--   adapts the bias has seven rounds, as each divides 32 bits by 35. The encoder has a round for
--   each code point, and twelve for a number, as each divides 32 bits by ten or more.
-- - Record, for the flags and the origin of src/lib.rs (Record/Flags, Record/Origin).
-- - Host, for src/parser/host.rs: IPv4 (Host/Ipv4, an address is its 32-bit value), IPv6
--   (Host/Ipv6 the parser, in which an index outside the eight pieces panics, Host/Ipv6/Print
--   the printers, which Host/Special/Printed compares), the hosts of schemes that are not
--   special (Host/Opaque) and those of special schemes (Host/Special, with the ASCII domains of
--   src/parser/punycode.rs). The fuel of the loop over the groups is the length of the text and
--   one, as each round takes a byte; the loop over the numbers of an IPv4 part has the length of
--   its text (Host/Ipv6/Bounds, Host/Ipv6/NoPanic); the printer has a round for each of the
--   eight pieces.
-- - Port, for the ports of src/parser/mod.rs and for src/parser/scheme.rs. An input of the
--   parser is the list of its unread code points. The printer has five rounds, one for each
--   digit.
--
-- - Parser, for src/parser/mod.rs without the tests: Parser/Input (the unread text, of which
--   tabs and newlines are skipped), Parser/Scheme, Parser/Userinfo, Parser/Authority (host and
--   port), Parser/Path with Parser/Drive (dot segments, Windows drive letters), Parser/Query
--   (opaque path, query, fragment), Parser/Record (`ParsedUrl`), Parser/Finish (the record of an
--   absolute URL), Parser/Relative, Parser/File and Parser/Url (`parse_url`, and `parse`, of
--   which the fast path is an argument), Parser/HostSetter (the host that a setter reads). A
--   function that appends to the serialization takes and returns its text. A result is a value,
--   an error or a panic (Parser/Result); a slice that ends behind its text panics, and so does a
--   loop that runs out of fuel. The loops over a path, a query or a fragment have the length of
--   the input and one as fuel, as each round but the last takes a byte; the lemmas on that are
--   in Parser/Path/Chars, Parser/Path/Resolved, Parser/Query/Growth, Parser/Query/Opaque,
--   Parser/Userinfo/Bounds. Parser/Finish/Ordered, Parser/Finish/Absolute, Parser/File/InOrder
--   and Parser/Url/InOrder put these together; Parser/Authority/HasHost is about empty hosts.
--   Whether a slice ends between the bytes of one code point is not modelled.
--
-- - Url, for the record `Url` of src/lib.rs and its getters, which slice the serialization;
--   Url/Parts relates them to the parser.
--
-- The parts use each other the way the source does: the decoder of Percent, the host scan and
-- the parser take their searches from Scan; SearchParams takes its escapes and its decoder from
-- Percent, as the parser does; the parser takes hosts from Host, ports and scheme types from
-- Port, and flags from Record/Flags. What `to_ascii_into` of src/parser/punycode.rs makes of a
-- domain that is not ASCII, and the standard library's UTF-8 test, are the fields of `Idna`
-- (Host/Special), arbitrary in every theorem.
--
-- Not modelled: the ASCII fast path (src/parser/fast.rs), the setters (src/parser/setters.rs),
-- the IDNA mapping (src/parser/punycode.rs), the Unicode tables that the build writes (build.rs,
-- src/parser/unicode_ranges.rs), the relative references, socket addresses and conversions of
-- src/lib.rs, the bridges to other crates and the C interface. Capacity hints have no effect on
-- a text and are left out.
pub mod Common
pub mod Buffer
pub mod Host
pub mod Parser
pub mod Percent
pub mod Port
pub mod Punycode
pub mod Record
pub mod Scan
pub mod SearchParams
pub mod Url
