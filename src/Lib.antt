-- ===== src/Lib.antt =====
-- MOROS is a hobby operating system in Rust. This library models the parts of it that carry its own
-- logic, apart from hardware: the file system, the processes and their handles with the system calls
-- on them, the paths of the API, its regular expressions and its line editor, the text editor, how the
-- shell reads a command, and the interpreter of Lisp.
--
-- How the parts interact. A program opens a path by a system call (src/sys/syscall/service.rs), which
-- asks the file system (src/sys/fs/mod.rs) for a resource, a directory, a file or a device, and stores
-- it under a handle of the running process (src/sys/process.rs). A path is walked from the root
-- directory over the entries of directories (dir.rs, read_dir.rs, dir_entry.rs); directories and files
-- are chains of blocks (block.rs, file.rs) on a device that is mounted (block_device.rs), and the
-- blocks in use are marked in a bitmap (bitmap_block.rs) that the superblock (super_block.rs) locates
-- and counts. All file names without a directory are those of src/sys/fs.
--
-- Which file models which part:
--   Fs/Block, Fs/Linked, Fs/Alloc   block.rs: `Block`, `LinkedBlock`, and their allocation
--   Fs/Device                       block_device.rs: the memory device, the drive with its cache
--   Fs/SuperBlock                   super_block.rs: `new`, `read`, `write`, the areas, the count
--   Fs/Bitmap                       bitmap_block.rs: `alloc`, `free`, `next_free_addr`
--   Fs/Entry, Fs/ReadDir            dir_entry.rs and read_dir.rs: entries, records, the iterator
--   Fs/Dir, Fs/Change               dir.rs: finding, sizes; creating, deleting, walking a path
--   Fs/Slots                        dir.rs and read_dir.rs: entries as they are written and read
--   Fs/Listing                      dir.rs `read` and src/api/fs.rs `read_dir`
--   Fs/File, Fs/Seek                file.rs: `read`, `write`, `seek`; its child modules Read, Write,
--                                   Rewrite, Loop and Roundtrip hold the laws of the two loops
--   Fs/Devices                      device.rs: the types of device and their files
--   Fs/Resource                     mod.rs: flags, `open`, `info`, `delete`, `canonicalize`
--   Fs/Format                       block_device.rs and bitmap_block.rs: formatting
--   Api                             src/api/fs.rs: `read`, `write`, `append_to`, `reopen`
--   Path                            src/api/fs.rs: `dirname`, `filename`, `realpath`
--   Process                         src/sys/process.rs: the table, handles, `spawn`, `exit`
--   Syscall                         src/sys/syscall/service.rs: the calls on handles
--   Regex                           src/api/regex.rs: the matcher
--   Prompt                          src/api/prompt.rs: the line, completion and history; Keys and
--                                   Input hold the keys and the loop, Entries the history, Valid,
--                                   Handled, Performed, Gap and Answers the laws
--   Editor                          src/usr/editor.rs: the lines and the cursor; Keys and Session hold
--                                   the keys and the loop, Status and Marks the status line and the
--                                   brackets that are highlighted, Valid, Moves, Edits, Typing,
--                                   Shown, Stepped, Lines, Clean, Contents, Saved, Inverse and Narrow the laws
--   Shell                           src/usr/shell.rs: globs, escapes, arguments; Redirect holds the
--                                   redirections, Quoting and Redirect/Laws the laws
--   Lisp                            src/usr/lisp/mod.rs: expressions; Env, Eval and Expand the files of
--                                   those names, Run the functions `eval` and `expand`, Primitive
--                                   some of the primitives, on numbers and lists; Rules the language
--                                   without fuel; Sound, Template, Chunks, Fuel, Frames and Caller
--                                   the laws, Grows, EvalGrows and ExpandGrows the comparison of runs
--                                   by their fuel, and Safe, Pushed, EvalSafe and ExpandSafe what a
--                                   run keeps
--   Word, Bytes, Run, Prelude       fixed-width numbers, bytes, panics, and shared helpers
--
-- How state is modelled. A disk is the function from addresses to buffers that the mounted device
-- provides; operations take it and return it. A name or a path is the list of its UTF-8 bytes, a
-- text of the matcher, the prompt, the editor and the shell the list of its characters. A `u32` is
-- a number below 2^32 and its arithmetic is written with the wrap-around of a release build; an
-- `i32` of `seek` is the number with the same bits. A panic is a value of `Run`, a `Result` of the
-- sources one of `Result`. The clock, the directory of the process and what lies outside, the crate
-- `bit_field`, the character classes of the standard library, which drives there are and the
-- `FileIO` of a driver, the size of the screen, the characters that it can show, the parser of the
-- crate `vte`, the programs that the shell starts, and the numbers and the parsed files of the
-- Lisp, and the primitives as the evaluator calls them, are arguments. A subtraction that the
-- prompt or the editor may not take below 0 is a panic there, as where overflow is checked.
--
-- Bounds. A loop over the blocks of a chain or the entries of a directory takes the number of
-- rounds that it may go, and ends in `stuck` if that is too small: the blocks of a chain are
-- enough for a read, and one round more for a write, the entries and blocks of a directory for the
-- iterator. The matcher takes the length of the expression, since each call drops a character of
-- it; the parser of records as many rounds as there are records, and one more.
--
-- The Lisp need not end, so its fuel has no bound: a call and a round of a loop take one, and a run
-- that is not stuck is the same with more.
--
-- What is not modelled: hardware (the drivers, interrupts, page tables, the display and the
-- network), the jump to user mode and the registers of a process, what is printed, the variables,
-- aliases and completion of the shell, the parser, the numbers and the other primitives of the
-- Lisp, and so far the other commands of src/usr.
pub mod Prelude
pub mod Run
pub mod Word
pub mod Bytes
pub mod Path
pub mod Regex
pub mod Fs
pub mod Process
pub mod Syscall
pub mod Api
pub mod Prompt
pub mod Editor
pub mod Shell
pub mod Lisp
pub mod Tests
