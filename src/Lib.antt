-- ===== src/Lib.antt =====
-- bootd, a boot server in C (src/*.c): it answers RARP, DHCP, RMP, TFTP and bootparam requests of
-- network clients from one configuration. A listener receives a frame or datagram and calls the
-- handler of its protocol; the handler looks up the client among the registered hosts, checks its
-- mask of services, finds the file and keeps a session, and answers through the listener's send
-- routine.
--
-- Server: the structs and globals (src/host.h, src/listener.h, src/service.h, src/global.h) as the
-- record World, what a C function comes to as Run (a value, an exit by log_msg at LOG_ERR, a fault
-- in memory, an endless walk), and the calls of the system as the record System, functions of the
-- number of calls so far. Nothing is assumed of System but where a theorem says so.
-- Log: the levels of messages, and in Log/File where they go (src/log.c).
-- Devices: the network interfaces and the lookups of them (src/device.c); what getifaddrs returns
-- is an argument, and an entry with a null address is a fault where it is read.
-- Services: the list of services (src/service.c), its words (src/ngenutil.c), and the devices and
-- addresses of a service.
-- Strings: words for values, host and port, quoting, and in Strings/Print the printing of
-- addresses and types (src/str.c).
-- Config: the configuration file. Scanner is the state machine of gen_tokenize_tokenize over the
-- characters of a token, Tokenizer the ring of tokens in front of it and gen_tokenize_next
-- (src/tokenize.c), Parser the recursive descent with its tables (src/parse.c), Lookup, Values,
-- Hosts and Evaluate the getters and evaluators of src/conf.c, each under the C name without its
-- i_, and Args conf_args and conf_file.
-- Util: the lookups of files, hosts, names and addresses (src/util.c).
-- Listener: the list of listeners and the send routines (src/listener.c).
-- Host: hosts and sessions (src/host.c).
-- Tftp, Rmp, Rarp, Dhcp, Bootparam: the handlers (src/tftp.c, src/rmp.c, src/rarp.c, src/dhcp.c,
-- src/bootparam.c), one function for each branch, under the names of the C functions.
-- Daemon: the program as it runs. Network and Link hold the calls of select, the sockets, RPC,
-- pcap and libnet as records of functions of the number of calls so far; Link also
-- listener_new_link and its parts, Rpc listener_new_rpc_udp, Receive the receive routines and
-- their dispatch to a handler, Select listener_select (src/listener.c); Start is service_start
-- (src/service.c), and Main the order of initialisation and the loop of main (src/bootd.c).
-- Tests: runs on small inputs, and the theorems applied to them.
--
-- A pointer to a host or session is an index into a list that only grows; a freed session is none
-- in its place, so a copied pointer (host_clone) and a use after a free can be told. A walk over
-- the hosts has one round more than there are hosts: if it needs more, it has come to some host
-- twice and never ends, which is the result hang. A dereference of a null pointer and a copy
-- beyond a buffer are the result fault. A packet is the buffer behind the pointer, of which pktlen
-- bytes were received. An address is a number, its port in host order.
--
-- A file is the list of what its reads will return. The parser has a state and results of its own,
-- with no_fuel where the bound on the depth of its calls is too small; the number of the file's
-- tokens and one is enough. A pointer that was never written is the entry list unset. Behind its
-- loop gen_tokenize_tokenize writes a 0 beyond the buffer of the token; these writes are counted
-- in overruns, and their effect on what lies behind the buffer is not modelled. The line and file
-- of an entry serve messages only and are left out.
--
-- The loop of listener_select has a bound on its rounds, as a listener that is put behind the
-- current one is visited too; one more than the number of listeners is enough where receive adds
-- none. The loop of main has no end in the code, so its rounds are an argument. The options of
-- conf_args are what getopt returns, one after the other. The addresses of a service get their
-- default port before the first of them is bound, which no call in between can tell.
--
-- Not modelled: log lines, except for what they read of a packet; the text of log messages;
-- rarp_updatetable of the systems that use routing sockets or have no ARP table to write (the one
-- with SIOCSARP is modelled); conf_get_loglevel and conf_host_file_add of src/conf.c, which
-- nothing calls; the effect of chdir; what stands behind the loop of main; the close of a socket
-- whose set-up fails; memory that runs out. getservbyname and the table of interfaces are
-- arguments of the functions that use them. libnet's arp header has a length of its own in each
-- version, so it is an argument of rarp_handler. Link set-up follows libnet 1.1, RPC the older
-- interface of Sun's library.
pub mod Base
pub mod Server
pub mod Log
pub mod Devices
pub mod Services
pub mod Strings
pub mod Config
pub mod Util
pub mod Listener
pub mod Host
pub mod Tftp
pub mod Rarp
pub mod Dhcp
pub mod Bootparam
pub mod Rmp
pub mod Daemon
pub mod Tests
