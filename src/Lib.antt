-- ===== src/Lib.antt =====
-- Verification of the C sources of python-systemd: the Python bindings of libsystemd and the
-- forward-secure pseudorandom generator (FSPRG) that seals journals.
--
-- Parts. `systemd/_fsprg.c` and `systemd/_daemon.c` are modules for Python. The first calls
-- `systemd/fsprg.c`, which stands on libgcrypt, and reads keys with `unhexchar` of `systemd/util.c`;
-- the second parses addresses with `parse_sockaddr` of `systemd/util.c` and turns the results of
-- libsystemd into exceptions with `systemd/pyutil.c`. `systemd/_reader.c`, `systemd/login.c`,
-- `systemd/_journal.c` and `systemd/id128.c` bind sd-journal, sd-login and sd-id128 in the same way;
-- the reader takes `systemd/strv.c` for its lists of strings. `systemd/siphash24.c` stands by
-- itself, with `systemd/_siphash24.c` to run it.
--
-- Files, by source:
-- - Siphash: systemd/siphash24.c and .h, one definition per function, with the loops of
--   `siphash24_compress` as definitions of their own. Siphash/Feed has the byte-by-byte
--   specification, Siphash/Blocks the hash by words of eight bytes, Siphash/Paper the hash as its
--   authors define it, independent of the definitions of Siphash.
-- - Fsprg: systemd/fsprg.c. Fsprg/Gcrypt is the interface to libgcrypt: a record of operations, and
--   records of the laws that its manual states. Fsprg/Codec has `mpi_export`, `uint64_export`,
--   `store_secpar` and their inverses, Fsprg/Random `det_randomize`, `genprime3mod4` and
--   `gensquare`, Fsprg/Number `twopowmodphi` and the CRT, Fsprg/Scheme the functions FSPRG_*.
--   Fsprg/Scheme/Keys, Seek, Agree and Sealing follow a key from FSPRG_GenMK to the states.
-- - Util: systemd/util.c and util.h. Util/Parse has `safe_atou` and `parse_sockaddr`.
-- - PyUtil: systemd/pyutil.c, and the outcomes of a call: a value or an exception.
-- - FsprgModule: systemd/_fsprg.c.
-- - Daemon: systemd/_daemon.c.
-- - Reader: systemd/_reader.c. Reader has sd-journal as a record of functions on a handle, which is
--   NULL in a closed Reader. Reader/Convert has `Reader_init` and the converters, Reader/Entry
--   `_get` and `_get_all`, Reader/Unique `query_unique` and `enumerate_fields`, Reader/Move `_next`,
--   `_previous` and the seeking, Reader/Catalog both `get_catalog`, Reader/Methods the rest, and
--   Reader/Closing the calls of a program in turn.
-- - Login: systemd/login.c. Strv: systemd/strv.c. Id128: systemd/id128.c. Journal:
--   systemd/_journal.c. Siphash/Program: systemd/_siphash24.c.
-- - PyUtil/References: counts of references, with `cleanup_Py_DECREFp`. Reader/Convert/References,
--   Reader/Entry/References, Journal/References, Login/References: the references of those loops.
-- - Modules: the functions PyInit_* of all modules.
-- - JournalPy: systemd/journal.py, the class Reader on Reader/Entry, Reader/Move and Reader/Methods,
--   and `send` on Journal.
-- - Base: Boolean tests, lists, machine words, bit operations, memory as lists of bytes.
-- - Tests, Siphash/Tests: concrete inputs, and a libgcrypt in software (Tests/Software).
--
-- Numbers are natural numbers; each cast and each shift to the left of a machine word has its
-- remainder written out. Memory is a list of bytes, and a pointer argument that the code fills is
-- the memory before the call, with the memory after it in the result. `none` is a failed assertion
-- or a step that C leaves undefined, such as an access out of bounds or a shift by 64.
--
-- Fuel. `det_randomize` has a block of fuel per byte of the buffer, and one more; each round writes
-- at least one byte. The search for a prime has no bound in the code; its number of tries is an
-- argument. The bit count of `twopowmodphi` has 64 steps, since the next shift is undefined.
-- `loop_read` runs on the list of answers of `read`. A loop over a Reader has a step of fuel per
-- entry and one for the end.
--
-- Parameters: libgcrypt, libsystemd (sd-daemon, sd-journal, sd-login, sd-id128), libc (`strtoul`,
-- `inet_pton`, `if_nametoindex`, `sscanf`, `printf`), the system calls, the clock, random bytes, what
-- uninitialised arrays hold, the calls into Python that encode, decode and make UUID objects, and the
-- converters of journal.py. The laws of UTF-8 in JournalPy/Sending are documented behaviour.
-- A call into libsystemd gives its result, what it stores through a pointer, and the handle after
-- it; the loops of the macros SD_JOURNAL_FOREACH_* run over the list of what they visit. The laws
-- for NULL in Reader/Closing/Null and for one step in Reader/Move/Skip are documented behaviour. The
-- primes that `gcry_prime_check` accepts come with Fermat's theorem as a hypothesis.
--
-- References. The files References count the references that the code takes on objects of Python, by
-- the number of an object, beside the functions that compute values; Reader/Lifetime and
-- Login/Lifetime have the pointers to libsystemd in the same way, and Daemon/Names what `malloc`
-- gave. `none` is there a release of what is not held.
--
-- Not modelled: the parsing of arguments, which is Python's; failed allocations, but where a module
-- says so; the parts for Python 2; text that is printed for progress; the macros of
-- systemd/macro.h; of the modules in Python all but entries and `send` of systemd/journal.py.
pub mod Base
pub mod Siphash
pub mod Fsprg
pub mod Util
pub mod PyUtil
pub mod FsprgModule
pub mod Daemon
pub mod Reader
pub mod Login
pub mod Strv
pub mod Id128
pub mod Journal
pub mod Modules
pub mod JournalPy
mod Tests
