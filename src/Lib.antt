-- ===== src/Lib.antt =====
-- A filtering DNS resolver in C: a server takes UDP queries, answers those for blocked domains
-- itself and forwards the others to an upstream server. This library models its parts and proves
-- what makes them correct.
--
-- The files and what they model:
-- - Wire: the constants and structures of dns.h.
-- - Header, Name, Message: dns_parser.c. Header is parse_dns_header, with build_dns_header of
--   dns_builder.c; Name is parse_dns_name; Message is parse_dns_question, parse_dns_message,
--   free_dns_message and dns_parse_query. Name/Decodes and Message/Questions state, without loops
--   or buffers, what the bytes of a message mean by RFC 1035.
-- - Encode, Response: dns_builder.c. Encode is encode_dns_name; Response is build_error_response
--   and dns_build_error_response.
-- - Domain, Labels, Trie, Filter: filter.c. Domain is normalize_domain, and Domain/Lowered the
--   text that it returns; Labels is split_domain_labels; Trie is the nodes with find_child,
--   add_child, filter_node_free and the two walks (`insert` of filter_add_domain, `walk` of
--   is_domain_blocked); Filter puts them together to filter_add_domain, is_domain_blocked, the
--   filter_t wrapper and the statistics, and Filter/File is load_filter_file. Filter/Names and
--   Filter/Text state what it means that one domain covers another, and Filter/Within what a
--   filter blocks in these terms. Filter/Lines and Filter/Holding state what the lines of a filter
--   file are and what they hold. Trie/Shape is the invariant of the trie, Trie/Paths the list of
--   paths that it stands for, Filter/Statistics the counts of that list, Filter/Counting and
--   Filter/Output the counters of load_filter_file and what it prints, and Filter/Contract what a
--   filter_t promises to a sequence of calls.
-- - Resolver: resolver.c. What socket, sendto, recvfrom, inet_pton and getaddrinfo return is an
--   argument, `Network`; `World` counts the open sockets and the address lists held.
--   Resolver/Address and Resolver/Forwarded state when a query is forwarded with success;
--   Resolver/Output is what the resolver prints, and Resolver/Reported how that ends.
-- - Server: dns_server.c. process_dns_query decides on one query; `serve` is the loop of
--   run_server over a list of events, each of them what one recvfrom returns, with the state of
--   server_running where the code reads it. Server/Rounds describes the loop as a relation between
--   states, one step for each event, Server/Log is the verbose log of process_dns_query and
--   run_server, Server/Told what that log tells of the replies, and Server/Statistics all that
--   run_server prints on stdout.
-- - Console: utils.c, on the text of stdout and stderr.
-- - Main: main.c. What getopt returns is a list of options, and what strtol and geteuid return an
--   argument, `Shell`. Main/Arguments states which command lines are accepted, Main/Messages is
--   what parse_arguments prints, Main/Output what main and its callees print, Main/Quiet what of
--   this is left without the verbose mode, and Main/Signals is the handler of the signals that
--   come before run_server. Main/Policy puts the parts together, from the filter file to the
--   responses.
-- - Common: list, option and number helpers; Common/Bits on masks; Common/Memory is the heap.
-- - Tests: runs on concrete packets and domains.
--
-- How the code is translated:
-- - A pointer that may be NULL is an `Option`. A buffer and its length are one list of bytes, a C
--   string is its bytes before the NUL. An out-parameter and the return code 0 or -1 are one
--   result, `none` for -1; what a failing call leaves in its out-parameters is not modelled, as no
--   caller reads it.
-- - The heap is `Mem`: what the next requests will be answered (`grants`), and how many blocks are
--   live. Every malloc, calloc, strdup and realloc of the code asks it, every free is a `release`.
--   `Plentiful` says that no request will be refused; theorems without it hold whichever requests
--   are refused. What the library keeps for itself (an open FILE, an address list) is not in it.
-- - An object that is changed through a pointer is returned changed. The nodes of the trie form a
--   tree, so no node is reached by two pointers that are both written through.
-- - Fixed-width values: the fields of a header are 16-bit words (`IsHeader`), and theorems on
--   buffers assume bytes below 256 where that matters. size_t does not overflow at the sizes that
--   occur: names are at most 255 bytes, packets come from a 512-byte buffer.
-- - The counters of run_server (unsigned long), like all size_t counts, are natural numbers: their
--   wrap at 2 ^ 64 is not modelled.
-- - isspace and tolower are those of the C locale, which the program never changes. The array of
--   split_domain_labels has a slot for each label; the theorem on it shows that no slot is left
--   NULL on a normalised domain.
--
-- Loops on fuel: the loop of parse_dns_name has 267 rounds, which is enough for ten jumps and 255
-- bytes of output, and its theorem shows that they are never used up on any input. The walk over
-- the question in build_error_response has one round for each byte of the packet and one more. All
-- other loops are structural.
--
-- Not modelled: the messages on stderr of the system calls of dns_server.c that fail, which only
-- print (those of resolver.c are a model of their own, and not part of what Main/Output
-- describes); the digits of the quotients that are printed as floating-point numbers; what getopt
-- itself prints; the tests; and the system's calls, which are arguments. The text of a file is an
-- argument too: what fgets returns of it is `read_lines`.
pub mod Common
pub mod Console
pub mod Wire
pub mod Header
pub mod Name
pub mod Message
pub mod Encode
pub mod Response
pub mod Domain
pub mod Labels
pub mod Trie
pub mod Filter
pub mod Resolver
pub mod Server
pub mod Main
pub mod Tests
