-- ===== src/Lib.antt =====
-- A model of the UNICORE TSI: the server that waits for UNICORE/X, forks a worker for it, and the
-- worker that runs its requests as the users they name.
--
-- How the parts interact. The server (lib/Server.py) reads a control message, checks the peer, calls
-- back from a local port of the configured range, and forks. The worker (lib/TSI.py) reads messages
-- from its channel (lib/Connector.py), finds the function in its table, becomes the user
-- (lib/BecomeUser.py) with the ids that the cache (lib/UserCache.py) gives, calls the function, and
-- takes its own identity again. The functions read parameters from the message (lib/Utils.py); those
-- for the batch system are in lib/BSSCommon.py and in slurm/, torque/ and lsf/.
--
-- Which file models which part:
--   * Base and its children: Boolean tests, equality, lists, signed integers, Python's dict and str,
--     and the chains of calls that may raise (Exec).
--   * UserCache: the cache of lib/UserCache.py, as a record with its dicts. One value of `Os` stands
--     for the clock and the databases during one call. Backing has the caches that calls lead to.
--   * BecomeUser: lib/BecomeUser.py, over a parameter for the system calls (`Kernel`), of which
--     BecomeUser.Posix says what POSIX promises. A session is the cache and the process; what was written before an exception stays written.
--   * Utils, Utils.Access, Utils.Commands: the parameters of a message, the access list, and
--     `run_command` of lib/Utils.py.
--   * Connector: the control channel of lib/Connector.py, as the text to be read and that written.
--     Connector.Data: the data channel, and the loop around partial writes. Connector.Stream:
--     StreamConnector; Connector.Forwarding: Forwarder.
--   * Io and its children: lib/IO.py. Chunks has `get_file_chunk` and Putting `put_file_chunk`, over
--     a map from paths to contents (`Session`) and over the amounts that one read or write moves and
--     what may be opened (`Device`); Info has `get_info`, Listing `list_directory` and `ls`, and Space `df`.
--   * Acl: lib/ACL.py. Uftp: lib/UFTP.py, the command and the steps of the transfer.
--   * Server.Ports: `open_connection` of lib/Server.py. Server: the rounds of `connect`, with
--     `verify_peer` of lib/SSL.py. Server.Addresses: the address to wait on. A `Connection` says
--     what the network does with one connection.
--   * Setup: `setup_allowed_ips` and `setup_portrange` of lib/TSI.py; Setup.ConfigFile:
--     `process_config_value` and `setup_acl`; Setup.Reading: the defaults and `read_config_file`.
--   * Worker: `init_functions`, `handle_function` and the loop of `process` of lib/TSI.py;
--     Worker.Functions and Worker.UserInfo: the functions that the module has itself; Worker.Table: the
--     table, with those functions of the other modules that only answer on the channel.
--   * Bss: `cleanup` and the listing of states of lib/BSSCommon.py; Bss.Submit: `submit`;
--     Bss.Control: control of jobs, details, scripts on the login node, with lib/Quota.py and
--     lib/Reservation.py; Bss.Scripts, Bss.Slurm, Bss.Torque, Bss.Lsf: slurm/BSS.py, torque/BSS.py and
--     lsf/BSS.py; Bss.States: their maps of states; Bss.Partitions: `parse_partitions` of slurm/BSS.py and
--     `get_partitions`; Bss.Nobatch: lib/BSS.py; Bss.Columns: the patterns for the listings of
--     torque/BSS.py and lib/BSS.py.
--   * World: a small system for the tests, which stand in the modules named Tests.
--
-- Conventions. A text is the list of its code points. An id or a port that may be negative is a signed
-- integer. An exception is a value, `err` or `none`, or a constructor of its own where the code tells
-- them apart. Calls of the logger are left out.
--
-- Bounds and fuel. `read_message` takes one round for a line, and has one more than the length of the
-- text that is to be read; a line has at least its newline. `open_connection` takes as many rounds as
-- the code's own bound, the number of ports. The loop of `process` has a bound on its rounds, one more
-- than the characters that are to be read. `cleanup` takes one for each child; the list does not
-- grow. Numbers are written with one round for a digit.
--
-- The loops of Io.Chunks and Io.Putting give no result (`none`) where they still run when the fuel
-- is spent; the results show that the number of bytes is enough, and where no number is. A directory
-- listing has a bound on the depth, and the depth of the tree is enough.
--
-- Not modelled: the logger, lib/Runner.py, and the patterns in the configuration of access
-- control lists, which are a parameter; libpam, TLS, sockets and processes are not code of the
-- program. The functions of the table that move files, start jobs or change access lists, of which
-- `put_file_chunk` need not return, are modelled by themselves and are no entries of Worker.Table.
-- The control channel is a text: its decoding is not modelled, and a channel is opened with the ends
-- of lines that `makefile("r")` hands out (`open_connector`). Of a mode that a message gives to
-- `chmod` only the number is kept, and whether the system sets it is a parameter; a number that is
-- too large for the system raises another exception than is modelled.
-- Division of a number of seconds is that of integers, which agrees with the code's floating
-- point below 2 ^ 53. The patterns for letters and digits are those of ASCII.
pub mod Base
pub mod UserCache
pub mod BecomeUser
pub mod Utils
pub mod Connector
pub mod Io
pub mod Acl
pub mod Uftp
pub mod Server
pub mod Setup
pub mod Worker
pub mod Bss
pub mod World
