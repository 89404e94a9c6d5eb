-- ===== src/Lib.antt =====
-- A verification of cclib, a C++ library of variables, JSON, strings, cryptographic helpers,
-- system calls, and parts over libmicrohttpd, libwebsockets and libxml2.
--
-- The parts and the files that model them (paths from the repository's root):
--   Base     shared names, byte strings and lists over the native numbers, signed integers.
--   Str      lib/cclstr.cc: split, join and replace; Str.Regex is regex_c, with its split
--            and replace in Str.Regex.Split. Str.Find models the `std::string` members.
--   Crypto   lib/cclcrypto.cc and lib/cclcrypto.h: Crypto.Base16 (base16_encode, base16_decode),
--            Crypto.Digest (digest), Crypto.Password (random, passwd_create, passwd_verify and
--            their base 16 forms), Crypto.Base64 (base64_encode, base64_decode).
--   Var      lib/cclvar.h and lib/cclvar.cc: Var.Value (what a var_c refers to), Var.Compare
--            (loc_c::compare, compare_value), Var.Dict (the members of std::map and std::set that
--            the code calls), Var.Copy (var_c::copy), Var.Access (conversions, operator [], keys,
--            has_idx, has_key), Var.Print (operator <<, to_string). On values these forget which
--            variables share a location; Var.Store has the locations with their counts (ref, unref,
--            the constructors, the destructors, the assignment, m_str_map), as Var.Store.Variables
--            steps through them.
--   Json     lib/ccljson.h, lib/ccljson.cc and lib/ccljson_parse_actions.cc: Json.Automaton and
--            Json.Lexer (parser_c::recognize_terminal), Json.Table (the LALR(1) tables),
--            Json.Text and Json.Actions (the parse actions), Json.Parser (parse_source),
--            Json.Escape (append_string), Json.Create and Json.Nice (create and create_nice, each
--            with a printer by recursion to compare it with),
--            Json.Strings, Json.Integers and Json.Decimals (what is written is what is read).
--   Varval   lib/cclvarval.h and lib/cclvarval.cc: Varval.Property (c_prop_map, c_type_map),
--            Varval.State (the members of validator_c, and how a validation ends), Varval.Simple
--            (type, comparisons, sizes), Varval.Validate (validate_pair and validate),
--            Varval.Object (the constructor, the destructor, the readers). Beside it stand
--            Varval.Conforms, what a schema says of a value, as an inductive relation without stacks
--            or fuel, and Varval.Path, what a reported path is.
--   Webs     lib/cclwebs.h and lib/cclwebs.cc: Webs.Protocol (protocol_func, for the events of one
--            socket), Webs.Context (http_func, protocol_idx, callback_on_writable). Webs.Message
--            puts the events of one service one after another, and Webs.Survives says in which
--            order they come. A socket of a client points to the number of the client first.
--   Sys      lib/cclsys.h and lib/cclsys.cc: Sys.Poll (poll_c; Sys.Poll.Runs has the map that it
--            stands for), Sys.Stream (stream_c, pipe_c, file_c), Sys.Descriptor (fd_c).
--   Http     lib/cclhttp.h and lib/cclhttp.cc: Http.Method (the table of methods), Http.Server
--            (connection_func, completed_func, process, upload_data), Http.Fds (retrieve_poll_fds).
--            Http.Lifecycle puts the calls for one connection one after another.
--   Xml      lib/cclxml.h and lib/cclxml.cc: Xml.Node (xml_attr_c, xml_node_c, operator <<),
--            Xml.Handlers (the handlers of xml_parser_c, parse), Xml.Document (what the events of a
--            document are). A pointer into a vector is a path, and is lost where the vector moves.
--
-- Json builds variables of Var, and its string maps compare as Var does. Varval validates variables
-- of Var, looks its schemas up by Var.Access, and matches by Str.Regex. The sets of
-- descriptors of Webs and Http are those of Sys.Poll. Crypto stands alone.
--
-- A `std::string` is its list of bytes, a `size_t` or an index a natural number, an `int64_t` an
-- integer; lengths stay below 2^32, the width of the parser's indices. A `double` is its 64 bits,
-- compared as IEEE 754 says. A thrown error is a value of a result type. A vector used as a stack
-- has its back first in Json and Xml, and last in Varval.
--
-- Loops that are not recursions on a list take fuel. Var.Store drops a reference with a unit for each
-- location, and each is deleted once (Var.Store.Drops). `split` and `replace` take a round for each
-- delimiter and one more, so one more than the length of the text is enough, and this is proved
-- where the results are stated; the same fuel serves for `split` and `replace` by an
-- expression without empty matches. `create` and `create_nice` take a unit for each round: one for a
-- value, and one more for each element of a container (Json.Create.Printer.rounds). The JSON parser
-- takes a unit of fuel for each round of its loops. A validation takes a unit of fuel for each nested
-- call: with references ranked so that each, at one value, goes to a lower rank of at most `top`, the
-- depth of the value times `top + 1`, and the rank of the root, bound them (Varval.Terminates). A
-- schema where no named schema refers to another at the same value has such ranks, 0 and 1
-- (Varval.Ranks).
--
-- OpenSSL, the C library's `strtod` and the random bytes are parameters, with what their
-- documentation says of them as named hypotheses (Crypto.Password.IsEvp, Crypto.Base64.IsEncodeBlock);
-- `regcomp` and `regexec` are the parameter Str.Regex.Posix, with the hypothesis
-- Str.Regex.Cuts.IsRegexec. The order in which the two sides of the assignment to the map of
-- expressions are evaluated is a parameter of Varval.Validate. What libwebsockets answers to
-- protocol_func is a part of each event, and the callbacks of the protocols are a part of the context.
-- `poll`, the streams of the C library and the system calls are the parameters of Sys.Poll,
-- Sys.Stream.Stdio and Sys.Descriptor.Device, with the hypotheses IsPoll, HoldsText, IsSink and
-- IsSource; what libxml2 reports of a text is the parameter of parse_xml. The loops of `read` and
-- `write` take a unit of fuel for each call of the system.
--
-- Not modelled: the change of elements in a location that is shared, by which a location can come
-- to hold itself; `format` and the reading of files; the destructor of Str.Regex; processes, timers,
-- sockets and the single calls of the operating system in cclsys; the responses, the values and the
-- post processor of cclhttp; the sending of cclwebs; the object that starts libxml2 and cleans it
-- up; and the wrapper of libcurl.
pub mod Base
pub mod Str
pub mod Crypto
pub mod Var
pub mod Json
pub mod Varval
pub mod Webs
pub mod Sys
pub mod Http
pub mod Xml
