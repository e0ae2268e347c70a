-- ===== src/Lib.antt =====
-- A model of sedutil, the program that manages self-encrypting drives by the TCG Opal protocol.
--
-- The program reads its command line (Common/DtaOptions.cpp), opens the drive and asks it what it can do
-- (Common/DtaDev.cpp), makes a device of the class that the drive has, and calls one method of it
-- (Common/sedutil.cpp). There is a function for each command of the user, which starts a session, makes
-- its calls and deletes the session (Common/DtaDevOpal.cpp, Common/DtaDevEnterprise.cpp). A call is built
-- in a buffer (Common/DtaCommand.cpp) and sent to the drive within a session (Common/DtaSession.cpp), and
-- the reply is read into tokens (Common/DtaResponse.cpp).
--
-- Prelude and Outcome: what the other files share. A call of the program is done, or it ends the
-- program by exit, or it is undefined behaviour (a fault), or a bound on a loop is used up (hung).
-- Endian: Common/DtaEndianFixup.h. Lexicon: Common/DtaLexicon.h and Common/DtaConstants.h.
-- Command: Common/DtaCommand.cpp; one definition for each `reset`, `addToken`, `complete` and setter.
-- Response: Common/DtaResponse.cpp; `init` and the accessors. Wire: what one makes of the other.
-- Structures: Common/DtaStructures.h. HashPwd: Common/DtaHashPwd.cpp.
-- Device: the state of a device (Common/DtaDev.h) and `DtaDevOpal::exec`. Its `sendCmd`, and PBKDF2,
-- are the parameter `Platform`, where a drive may answer as it likes, by all its earlier requests.
-- Discovery: Common/DtaDev.cpp; `discovery0` and `discovery0_NS`, with a case for each feature, and in
-- `Encode` the descriptors that a drive writes.
-- Session: Common/DtaSession.cpp, and in `Course` what a call does to the sessions of a device. Opal: the other functions of Common/DtaDevOpal.cpp, in children for
-- ranges, users, service providers and setups; `Opal.Commands` lists the commands as values.
-- Enterprise: Common/DtaDevEnterprise.cpp, in children for bands, users and the reverts.
-- Raw: `objDump` and `rawCmd` of both classes, with their hexadecimal digits.
-- Options: Common/DtaOptions.cpp and the macros of Common/DtaOptions.h, whose uses are a table of values.
-- Main: Common/sedutil.cpp; the virtual methods of Common/DtaDev.h are a record that each class fills.
-- Main.Open and Main.Scan: `DtaDevOS::init` and `DtaDevOS::diskScan` of linux/DtaDevOS.cpp. The
-- operating system is the parameter `Machine` there.
-- Linux: linux/DtaDevLinuxSata.cpp and linux/DtaDevLinuxNvme.cpp; `sendCmd` over SATA, SAS and NVMe, and in
-- `Identify` what a drive says of itself. An `ioctl` is the parameter `Kernel`, which may answer as it
-- likes. `Host` makes a `Machine` of these drivers.
-- Windows: windows/; the same for ATA, USB and NVMe disks, with `DeviceIoControl` as the parameter `Control`.
-- Vectors: the tests of PBKDF2 in Common/DtaHashPwd.cpp.
-- Pba: LinuxPBA/; the password that is typed, and the visit of all drives with it.
-- Samples: a drive that the tests run the commands on.
--
-- Bounds: the receive loop of `exec` has no bound of its own, so `Platform` has one, `polls`. The loop
-- of `init` gets a round for each byte of the buffer and takes a byte in each. The loop over the
-- descriptors of a discovery gets a round for each byte of the buffer and takes four of them at least.
-- The loop over the properties gets a round for each token and one more. The loop of `loadPBA` gets a
-- round for each byte of the image and one more, which is enough if a block is not empty. The loop over
-- the arguments gets a round for each, and goes on to a later one in each, up to 254 arguments.
-- The loop over the keys of a password takes one in each round; at the end of the input it is hung. The
-- loops over the drives go through the list of their names; that of the scan on Windows counts to the
-- bound MAX_DISKS of the code. A call that is too long is found by `complete` only: it ends the program,
-- or it is a fault if it went behind the array of the buffer, wherever that is aligned.
--
-- Not modelled: what is logged or printed, with the level of the log and the format of the output; the
-- dumps of Common/DtaHexDump.cpp and Common/DtaAnnotatedDump.cpp; `exec` and `comID` of the generic
-- device, which nothing calls; the opening of a device file with the messages for its errors; the
-- settings of the terminal, pauses and the reboot itself; `new` that fails. A C string is the list of
-- its bytes before the zero. `std::sort` is part of the language's library: `sort_names` stands for it.
pub mod Prelude
pub mod Outcome
pub mod Endian
pub mod Lexicon
pub mod Command
pub mod Response
pub mod Wire
pub mod Structures
pub mod Device
pub mod HashPwd
pub mod Session
pub mod Opal
pub mod Samples
pub mod Discovery
pub mod Enterprise
pub mod Raw
pub mod Vectors
pub mod Linux
pub mod Windows
pub mod Main
pub mod Options
pub mod Pba
