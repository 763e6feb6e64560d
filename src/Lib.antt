-- ===== src/Lib.antt =====
-- ndppd, the NDP proxy daemon: it answers IPv6 neighbour solicitations on one interface on
-- behalf of hosts behind other interfaces, after it has found them there by solicitations of its
-- own.
--
-- The parts, and the files that model them:
-- - Address (src/address.cc): a 16-byte address with its mask; `operator==` is `equal`, the two
--   functions `prefix` are `prefix` and `set_prefix`. Address/Parse has `parse_string` and
--   `to_string`.
-- - Output: what the daemon sends. A message or a shell command is a value; the operations that
--   send return what they send, in order.
-- - Session (src/session.cc): a target that is looked for, with its status, tries and time.
--   `confirm` is `handle_advert()`, `update` the body of the loop of `update_all` for one
--   session and `destroy` the destructor. Session/Life has the events and the state diagram,
--   Session/Answer who is answered, Session/Probe what happens when nobody answers, Session/Wire
--   the routes that are put in place.
-- - World (src/proxy.h, src/rule.h, src/route.h, src/iface.h): the tables of the daemon. A
--   pointer to a proxy or an interface is its number. A session is held by the list of its proxy
--   alone, beside a number, and the weak list `session::_sessions` is a list of such numbers.
--   `open_ifd`, `route::find` and `route::ifa` stand here too. A null pointer that is
--   dereferenced is a fault, `throw`; an index past the end of `_pollfds` and an assertion that
--   fails are two more.
-- - Proxy (src/proxy.cc): `find_or_create_session` and the three handlers. Proxy/Faults is about
--   what ends the daemon. Proxy/Options has the setters, the rules and `find_aunt`, Proxy/Update
--   `session::update_all`. Proxy/Listed, Entries and Create say what a well-formed table of
--   sessions is, Proxy/Keeps, Adverts and Survive are about the operations on it, and
--   Proxy/Aging, Turns and Elapse about what `update_all` comes to.
-- - Iface (src/iface.cc): what `poll_all` does with a solicitation or an advertisement that has
--   been read. Iface/Packets has the bytes of the messages, `read_*` and `write_*`; Iface/Map
--   `_map` with its iterator and `fixup_pollfds`; Iface/Poll `poll_all`; Iface/Open `open_pfd`
--   and `proxy::open`; Iface/Filter the packet filter and Iface/Flags the flags of a device.
--   Iface/Safe, NoFault, Calm, Relevant and Poll/Safe are about daemons whose rules all have an
--   interface.
-- - Tables (src/route.cc, src/address.cc): the kernel's routes and addresses, read from text.
-- - Conf (src/conf.cc): the configuration parser. Conf/Shorter, Skip, Ends, Rounds and Total are
--   about its end, Conf/Stuck about texts on which it makes no progress, Conf/Quotes and
--   Conf/Order the values and the multimap, and Conf/Load `load_config` of src/ndppd.cc, without
--   the call that parses the address of a rule.
-- - Daemon (src/ndppd.cc): the loop of `main`, turn by turn. Daemon/Configure has `configure`,
--   on a configuration that `load_config` has passed; Daemon/Configure/Asked says what it asks
--   for, entry by entry. Daemon/Main has the program from there on.
-- - NdProxy (nd-proxy.c): the separate program for router solicitations and advertisements, from
--   a frame that has arrived to the frames that are sent, and the description of an interface.
--   NdProxy/Checksum, Words, Rounds and Update are about the checksum, NdProxy/Options about the
--   loop over the options, and NdProxy/Forward about where a frame goes.
-- - Pointers (src/ptr.h): the reference counts, on a heap of their own. The other files name an
--   object by its number and do not count.
-- - Base: shared lists, tests, integers, bits and texts.
-- - Examples: the properties at concrete inputs.
--
-- How they interact: `configure` opens the interfaces and makes the proxies with their rules. In
-- each turn of the loop, `poll_all` takes what `poll` and `recvmsg` give, reads the messages and
-- hands each to the proxies that its interface serves or has as parents; a proxy finds or
-- creates the session of the target and acts on it; a session sends on its interfaces, answers
-- through its proxy and puts routes in place; every turn ends with `update_all`, which walks the
-- weak list and takes dead sessions out of their proxies.
--
-- Parameters: what the system does. `Sockets` and `PacketSockets` are the calls of `open_ifd`
-- and `open_pfd`, `Kernel` those of `poll_all`, `Ioctls` those on the flags of a device,
-- `Machine` is the kernel's interpreter of packet filters, and `Pton` and `Ntop` are `inet_pton`
-- and `inet_ntop`. The texts of files and the times of turns are arguments.
--
-- Bounds: the loops of the code that are modelled are structural recursions over a list, a text
-- or a number of bytes, but for the parser: `skip` counts its rounds, no more than there are
-- bytes, and `parse` and `parse_block` take fuel, in proportion to the length of the text
-- (Conf.Total). In nd-proxy, the loop over the options counts its rounds, no more than there are
-- bytes (NdProxy.Options), and the one over a carry two of them (NdProxy.Checksum). `int` is an
-- unbounded integer here: the model is the program while times in milliseconds and counts of
-- tries stay within 32 bits.
--
-- Not modelled: the logger, the command line, signals and daemonizing, the optional netlink
-- part, and of nd-proxy.c the packet filter and what opens the interfaces. The build is the
-- default one, without WITH_ND_NETLINK. An interface that is kept by an automatic route alone
-- may be freed in the program when the routes are read again; here its entry stays in the table.
pub mod Base
pub mod Address
pub mod Output
pub mod Session
pub mod World
pub mod Pointers
pub mod Proxy
pub mod Iface
pub mod Tables
pub mod Conf
pub mod Daemon
pub mod Examples
pub mod NdProxy
