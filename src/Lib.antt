-- ===== src/Lib.antt =====
-- The server, the subscriber and the load generator of ServerClientApp, with the script that tests
-- them.
--
-- A server takes datagrams from UDP clients and forwards each, as a line of text, to the TCP
-- clients (the subscribers) that are subscribed to its topic. A topic is a path of levels, and a
-- subscription may hold the wildcards "+" (one level) and "*" (any number of levels). The program
-- pcom_hw2_udp_client/udp_client.py is the load generator: it sends the entries of a JSON file as
-- datagrams. The script test.py builds the server and the subscriber, runs them and the load
-- generator as processes, reads what they print and judges it in nineteen tests.
--
-- Which file models what:
--   Base            the conditional, results that return or raise, lists measured by the native
--                   numbers, and what the sources use of texts and of int(): `rstrip`, `split`,
--                   `in`, str, int, and sscanf of a port.
--   Harness         test.py. Suite holds the state, which is the dictionary `tests` and the
--                   history of the calls, and the monad of runs that return or raise. Results is
--                   the dictionary with pass_test, fail_test and print_test_results; Topics the
--                   class Topic; Process the class Process and timeout; Helpers and Checks the
--                   helper functions; Basic, Wildcards and Main the tests and h2_test, under the
--                   names of the source. A block of h2_test under a condition is a definition of
--                   its own, and so is each loop of a test.
--                   Effects, Verdicts and Whole hold the proofs: which steps leave `tests` alone,
--                   how a test marks itself, what a pass means, and what a whole run leaves and
--                   prints.
--   UdpClient       pcom_hw2_udp_client. Port is utils/unpriv_port.py; Base64 the decoder of the
--                   standard library that udp_client.py calls; Client the three modes and the
--                   branches of main. Parser is setup_parser with parse_args: Tokens has the
--                   options and tells them from other arguments, Words, CommandLine and Types the
--                   proofs. Ip is ip_address, and Main setup_socket and main.
--   Server          Server.cpp. Topic is tokenize_topic, check_wildcard_topic and
--                   compare_token_vectors, where an iterator is an index. Clients has the state,
--                   which is the map of the clients and the polled descriptors, and its elementary
--                   operations; Handlers the member functions that serve a connection, a request,
--                   a disconnection and a message; Run the loop of Server::run. Valid, Delivery
--                   and Subscriptions hold the proofs. Payload is manage_udp_message and
--                   interpret_udp_payload, from the bytes to the line that is forwarded. Abstract
--                   is the server without lists and order: a step relation on the view that the
--                   map gives, and the refinement. Main is prepare, the destructor and
--                   server_main.cpp.
--   Wire            protocols.cpp: recv_efficient and send_efficient, with their loops. Texts is how
--                   a message is made of a command and a text, and Lines the way of a line from a
--                   datagram to the subscriber.
--   Subscriber      Subscriber.cpp. Input has strtok and strlen; Subscriber itself the member
--                   functions, under their names; Requests, Sent, Reading and Delivered the
--                   proofs, the first and the last of them together with the server. Main is
--                   prepare and subscriber_main.cpp.
--
-- The operating system is not modelled but asked: Harness/Suite has a record of answers that may
-- depend on all the calls made so far, and each answer may be an exception, so a theorem for every
-- such record holds whatever the processes, the pipes and the clock do. In the same way the server
-- is given what each poll() and the calls behind it report, and whether each send succeeds; DIE and
-- a null pointer that is read are the result `none`. The subscriber is given what recv_efficient
-- returns, call by call; a run that reads on waits. The calls by which the two programs set up
-- their sockets, and inet_addr, are asked in the same way. UdpClient/Client takes the answers of
-- sendto, the lines of the standard input and the picks of random.choice as arguments, and
-- UdpClient/Main the command line, the files, the reading of IPv6 texts and the answer of bind().
--
-- Loops are structural recursions where the source counts or walks a list. The loops over two
-- iterators of compare_token_vectors run on fuel: the number of tokens and one, and
-- Server/Topic/Loop shows that it is enough. The mode random runs on fuel, and `none` says that it
-- was cut off; with a count of n, n and one rounds of fuel are enough. The loops of Wire run on
-- fuel, one for each byte that is left to move, since a call moves at least one byte.
--
-- The command line of udp_client.py is parsed as argparse of Python 3.11 parses it: abbreviated
-- options, "--name=value", negative numbers as arguments, "--", and the errors in their order.
-- Where a "--" that argparse takes away was the only text of an argument, its value is []; when
-- parse_args returns such a value, the model follows the program no further.
--
-- Not modelled: what the client does with an argument whose value is []; delays that are too long
-- for time.sleep (about 9.2e12 ms); the wording of the help and of the errors of argparse, and
-- digits outside ASCII; the texts that DIE and perror write; the rounding of the doubles in
-- SHORT_REAL and FLOAT payloads, whose digits are those of the exact quotient; the Makefile.
pub mod Base
pub mod UdpClient
pub mod Harness
pub mod Server
pub mod Wire
pub mod Subscriber
