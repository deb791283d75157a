-- ===== src/Lib.antt =====
-- Parts of the Alkyl compiler: the lexer of its front end; the intermediate representation ALIR and the
-- passes that work on a whole ALIR module; the allocator that the compiler takes its memory from; its
-- hash map, and the table of strings that stands on that.
--
-- Parts, and how they interact. The lexer (src/lexer/lexer.c) gives the parser and the language
-- server (src/driver/lsp.c) one token for each call. The front end lowers a program to an ALIR
-- module (include/alir/alir.h); the optimiser (src/optlir/) rewrites it; the checker (src/alick/)
-- tests it before code generation; the binary writer and reader (src/alir/binary_write.c,
-- src/alir/binary_read.c) store it in a .alirb file between two runs of the compiler. All passes
-- walk the same linked lists of functions, blocks and instructions, whose memory the arena
-- (src/common/arena.c) gives.
--
-- Files.
--   Prelude and Prelude/  shared names, Boolean tests, lists, bits, runs that may fault, filters.
--   Ir and Ir/            the structs of include/alir/alir.h and include/parser/typestruct.h as
--                         records, the opcodes (Ir/Op) and the kinds of values (Ir/Names).
--   Binary                src/alir/binary_write.c and src/alir/binary_read.c. Binary/File has the bytes
--                         of a file and the reads of them, Binary/Leb the numbers in LEB128, Binary/Write
--                         the bw_ functions and alir_write_binary, Binary/Read the br_ functions and
--                         alir_read_binary. A writer returns the bytes that it appends; a reader takes
--                         the bytes that are left and returns a value with the rest. Binary/Kept says
--                         what the format keeps of a module; Binary/Pieces, RoundTrip, Stable, Header,
--                         Losses and Leb/Bounds are about these.
--   Alick                 src/alick/: Alick/Check has alick_check_cfg (cfg.c) and alick_check_types
--                         (type.c), Alick/Memory has alick_check_memory (memory.c), Alick itself has
--                         alick_check_module (core.c). A check returns the list of its reports, in the
--                         order in which alick_error prints them. Alick/Labels has streq_lit of
--                         include/common/common.h. Alick/Check/Flow, Alick/Check/Operands and
--                         Alick/Memory/Clean describe what each check accepts, Alick/Verdict the whole,
--                         Alick/Memory/Searches and Alick/Memory/Dangling a module without an arena.
--   Optlir                src/optlir/unused.c: Optlir/UsedSet has the sets of names and the loops over
--                         a module, Optlir/Calls the removal of functions, Optlir/Globals that of
--                         globals, Optlir/Structs that of structs, Optlir/Unused optlir_remove_unused.
--                         Optlir/Reach has the search for reachable blocks of src/optlir/local.c, where
--                         a block is its position in the function; Optlir/Branches folds the
--                         branches on constants of src/optlir/local.c; the conversion of a float to a
--                         double is a parameter there. Optlir/Redirect moves the targets of jumps to
--                         another label. Optlir/Constants evaluates operations on constants, with the
--                         operations on double as parameters; Optlir/Constants/Quotients is about
--                         them. Optlir/Allocs has optlir_dce_allocs of src/optlir/mem2reg.c.
--   Arena                 src/common/arena.c and the inline arena_alloc of include/common/arena.h, without
--                         the interner. `malloc` is a parameter, which may return NULL; an address
--                         within a block is the block's address and an offset. Arena/Fits and
--                         Arena/Reset are about them.
--   Hashmap               src/common/hashmap.c. Hashmap/Hash has murmur3_32 and next_pow2, Hashmap/Probe the
--                         search for a slot, Hashmap/Map the structs, hashmap_init, hashmap_resize and
--                         hashmap_free, Hashmap/Ops the other operations. A key is an address, and a
--                         function gives the string at each address, which is taken not to change; the
--                         copy of a key that arena_strdup or strdup makes is an argument. Cycle, Walk
--                         and Leads are about the slots that a search reads, Table about the indices,
--                         Layout and Search about the invariant and a search under it, Values, Growth,
--                         Written and Removed about what an operation writes, Put, Intern, Remove,
--                         Bounded, Capacity, Sets and Laws about the operations.
--   Interner              src/common/intern.c, whose static variables are one state. Interner/Canonical is
--                         about the addresses that the table gives to texts.
--   Lexer                 src/lexer/lexer.c and include/lexer/lexer.h. Lexer/Token has the kinds of tokens,
--                         tokens and settings, Lexer/State the state and its lines and columns,
--                         Lexer/Skip, Symbol, Number, Text, Keywords and Word one attempt each, which
--                         takes the text that is left and returns the text behind what it reads,
--                         Lexer/Indent the braces that indentation makes, Lexer/Next lexer_next;
--                         Lexer/Tokens the loop over the tokens in src/driver/lsp.c. A text is the bytes
--                         before the terminator. strtod and the conversions to double are a parameter.
--                         Lexer/Text also has sb_append_escaped of src/common/common.c. Lexer/Behind,
--                         Past, Attempts, Weight, Progress, Kept, Places and Room are about a call,
--                         Skip/Blanks, Number/Value, Symbol/Longest, Symbol/Table, Keywords/Lookup and
--                         Text/RoundTrip about the attempts.
--   Lsp                   the semantic tokens of the language server, src/driver/lsp.c, on the tokens that
--                         Lexer/Tokens gives it; Lsp/Decode is about what a client reads.
--   Examples              sample modules, runs, and the theorems at them.
--
-- Conventions. A pointer that may be NULL is an Option, a linked list a List. A machine integer is the
-- natural number of its bit pattern, below 2 ^ 32 or 2 ^ 64, and a wrap-around is written `% 2 ^ w`. A
-- run that reaches an operation without a meaning in C (a read through NULL or behind the end, a shift
-- by the width, the least number divided by -1), or a loop without an end, ends in a Fault.
--
-- Bounds and fuel. The list of functions, blocks and instructions bounds the loops of the passes,
-- but for these: br_u32 loops on the bytes of the file, which it takes off. The closure loop of
-- collect_used_structs runs on fuel, one more than the number of fields in the module: each of its
-- passes but the last adds the class of a field that the set lacks. The loop of
-- mark_reachable_blocks runs on fuel, the number of blocks: each block is pushed once. A search in a
-- hash map runs on fuel, the number of slots and 7 more: after 7 steps the hash is shifted out, and
-- from then on no slot comes again before all have. The loop over the tokens of a source runs on
-- fuel, three for each byte and one more: each call reads a byte, returns a pending token or closes
-- blocks. A search of the table of keywords runs on fuel, the number of its slots. That all of these
-- have enough fuel is part of the results.
--
-- Not modelled: the messages that alick_error prints, debug output, memory that runs out other than
-- in the arena, and the members of a type that describe a function pointer's signature, which the
-- binary format leaves out; the files that the binary functions open, of which only the bytes are
-- modelled; settings of the lexer below 0. The parser, semantic checker, lowering, meta virtual
-- machine, back ends, the rest of the driver and the other passes of the optimiser are not part of
-- this development. The hash maps that alick_check_memory and optlir_dce_allocs use are taken as the
-- lists of their keys, which is what they are when the module has a compiler context with an arena;
-- Hashmap/Sets is about that use of a hash map. Without one, the map of alick_check_memory keeps
-- the address of a buffer that is gone, and the model faults where the key of an entry is read. The
-- passes of the optimiser are modelled with an arena.
pub mod Prelude
pub mod Ir
pub mod Arena
pub mod Hashmap
pub mod Interner
pub mod Lexer
pub mod Lsp
pub mod Binary
pub mod Alick
pub mod Optlir
pub mod Examples
