-- ===== src/Lib.antt =====
-- The program lists processes that hold unlinked files open, with attributes of both. It runs
-- `lsof -F`, whose output names the processes and files, then fills in attributes from /proc and
-- `stat`, and prints a report. The parts follow the sources:
--
-- + Common, Common/Id, Common/Label: src/CPHFCommon.h, the ids and labels of attributes.
-- + Files: src/CPHFFile.h, src/UnlinkedFile.{h,cpp}, src/ProcFile.{h,cpp}. `UnlinkedFile` and
--   `ProcFile` are the classes; `new_unlinked_file` and `new_proc_file` their constructors;
--   `add_unlinked_attribute` and `add_proc_attribute` are `do_addAttribute`; `add_file`,
--   `add_file_attributes` and `flatten` the methods of those names, `print_proc_attributes` and
--   `print_unlinked_attributes` are `do_printAttributes`.
-- + Lsof: src/LSOFReader.{h,cpp}. `buffered_read` is `bufferedRead`: `scan` is its `fscanf`,
--   `read_loop` its loop, `read_fd`, `read_flags` and `read_pid` the cases of its switch on the
--   variables `Reading`, and on the string stream `strbuff`, which is empty wherever the body of the
--   loop starts; a pointer into the map is the key that leads to the object. `wait_for` and
--   `read` are `getFilesInfo` and `do_read`. Lsof/Store is the same loop on shared objects, with
--   pointers as references into memory.
-- + Reader, Reader/Device: src/CPHFReader.{h,cpp}. `CphfReader` is the class, with the two operations
--   that each reader has in its own way; `read_time`, `read_etime`, `format`,
--   `read_perms`, `build_device_map` and `read_device` are the methods of those names.
-- + FileStat: src/FileStatReader.{h,cpp}. `process_option` is `processOpiton`; `collect` and
--   `run_readers` are the two loops of `readFileStatAttributes`, the map of closures kept as the map
--   of the attributes that they add. FileStat/Opt has the letters of the options.
-- + Proc, Proc/Values, Proc/Stat: src/ProcReader.{h,cpp}, in the same way; `read_proc_stat` is
--   `readProcStat`, with the formats of its five calls of `fscanf` as lists of directives. They scan
--   47 fields, and what the line has behind them is left. A number out of range is stored as the GNU
--   library does, and a sign with no number behind it is taken from the text.
--   Proc/Opt, Proc/StateId and Proc/StateLabel have the letters of the options, and the letters and
--   labels of the states.
-- + Builder: src/ProcFileEntryBuilder.{h,cpp}. `World` is what is kept between readers: the map of
--   processes, the static table of labels, the static table of states, and the lines printed.
--   `new_reader` is the switch of `build`, and `run_reader` the two calls on what it made.
-- + Printer: src/PrettyPrinter.{h,cpp}. Printer/Read reads a report back.
-- + Main: src/cphf.cpp. `check_options` is `checkOptions`; `main` starts from the options that
--   `getopt_long` returns.
-- + Env: what the program asks of the system, a parameter of the definitions.
-- + Base, Text, Map: numbers of a fixed width, the results of code that may go wrong, text as bytes,
--   and the standard containers as lists of entries in the order in which they iterate. A key of a
--   map is compared by the order that the container has, and nothing else.
--
-- The readers meet in the map of processes and in the labels, and nowhere else: that of lsof puts
-- processes and files in, the others add attributes to them, and the printer looks up the label of
-- each attribute. Lsof/Load describes a listing and the map that it stands for; Lsof/Invariant
-- carries a property of the map through the loop of `bufferedRead`; Files/Grows says what it is to
-- add attributes only, Files/Keeps what it is to lose nothing, and Files/WellFormed what it is to
-- be in order; Lsof/Attributes, FileStat/Attributes and Proc/Attributes carry a property of the
-- attributes that a reader sets through the reader, for the labels and for values of one line
-- (those named OneLine), and Env/Lines says what the system gives then; Builder/Readers carries a
-- law of each reader over to the one that is made, for the laws in Builder/Labels, Builder/OneLine,
-- Builder/Grows, Builder/Keeps, Builder/Announced and Builder/Agreed; FileStat/Shown and Proc/Shown
-- follow one attribute of one file or process through its reader, and Builder/Steps through `build`;
-- Proc/Owner says whose entries are looked up; Main/Served describes a system that answers: memory is
-- there, links can be read or not, the owner and the group of each file that `stat` finds have an
-- entry, and the list of drivers is not there or has its format, with columns padded by any number of
-- blanks; Main/Runs is a run on one.
--
-- The modules below a part hold its lemmas; those named Sample and Tests hold runs on a small
-- system.
--
-- Undefined behaviour and exceptions that nothing catches are results of their own (`Fault`): a null
-- or dangling pointer, a variable that was not set, an overrun buffer, a number out of range, `at` of
-- a key that is missing, and an option without a case, of which the id is not set either.
--
-- Numbers of the source stand for their bit patterns; conversions to 32 and 64 bits are written out.
-- The loop of `bufferedRead` and that of `buildDeviceMap` have a unit of fuel for each byte and one
-- more; each round takes a byte at least. The loop of `readFileName` has fuel for 27 buffers, from
-- 1024 bytes up by a factor of four: the next size does not fit `long long`.
--
-- Not modelled: what goes to standard error; `getopt_long`; the child process but for its output and
-- the failure to start it; the short labels and the members for parents and children, which the
-- sources do not use; the locale.
pub mod Base
pub mod Text
pub mod Map
pub mod Common
pub mod Files
pub mod Lsof
pub mod Env
pub mod Reader
pub mod FileStat
pub mod Proc
pub mod Builder
pub mod Printer
pub mod Main
