-- ===== src/Lib.antt =====
-- Verification of the C programs of the repository: simulations and tools, each in its own
-- directory, which share no code. Models are translated from the C sources function by function;
-- a function keeps the name it has in C.
--
-- - Huffman Coding/huffman-proj is a file compressor. Huffman/Tree models tree.h and the node
--   operations of tree.c; Huffman/Pqueue models pqueue.c, the array of 256 slots that is sorted
--   again at each insertion; Huffman/Build models huffman.c: the frequencies of the input, the
--   leaves, and the loop that merges the two smallest nodes until one is left; Huffman/Table
--   models table.c, the codes of the characters; Huffman/BitsIo models bits-io.c, the bits of a
--   file packed into bytes that mark how many of their bits are in use. Huffman/Serial models the
--   text of a tree in a file, tree_serialize and tree_deserialize of tree.c, whose list of nodes
--   and pointers it writes out. Huffman/Coder models encoder.c and decoder.c, and huffc.c and
--   huffd.c that run them. Huffman/Codes follows an input file from the tree to the codes. The
--   compressor counts the characters, builds the tree, reads the codes off the tree, and writes
--   the text of the tree and then the codes bit by bit; the decompressor reads the tree back and
--   follows the bits down it.
--
-- - Bank-Atm Simulation/bank-proj is a bank server and its ATM clients, which exchange messages
--   of 17 bytes over pipes. Bank/Command models command.h and command.c, Bank/Errors errors.c,
--   Bank/Server bank.c, Bank/Atm atm.c, Bank/Trace trace.c, Bank/Twriter twriter.c, which writes
--   a trace of random requests, and Bank/Sim banksim.c, which connects the ATMs and the bank by
--   pipes: an ATM reads what the bank wrote to its pipe, and the order in which the messages of
--   the ATMs reach the bank is a parameter. Bank/Treader models treader.c, which prints a trace.
--   The file-level variables of a C file are a record that its operations take and give back.
--   What the system calls read and write give comes from outside, as a list of rounds (server) or
--   of exchanges (ATM).
--
-- - CacheSimulation/cache-sim/src is a set-associative cache with LRU replacement. Cache/Bits
--   models bits.c, Cache/Lru models lru.c, Cache/Sim models cache.c and cpu.c, Cache/Text the
--   text of a trace that cpu.c reads, and Cache/Program main.c with what is printed. A queue
--   node's pointer to a line is the index of the line in its set. What malloc leaves in a block
--   is a parameter.
--
-- - WordFrequency counts the words of its standard input. WordFrequency/Wset models wset.c, a
--   linked list of words with their frequencies, WordFrequency/Words models words.c,
--   WordFrequency/Programs the loops of wordfreq.c, wordfreq-fast.c and wordfreq-none.c, and
--   WordFrequency/Print what they print.
--
-- - count-strings-proj/count-strings.c counts at how many places given strings occur in its
--   standard input, and prints the counts: CountStrings.
--
-- The modules below these hold what is proved of them; Base holds what all of them share, and the
-- modules named Tests hold concrete inputs.
--
-- Conventions: an int or an unsigned of 32 bits is its bit pattern, a number below 2^32, whose
-- sums and differences wrap (Base/Words); a char or a byte is a number below 256. The counts of
-- encoded and decoded bytes in the compressor are unbounded numbers, which an int holds for
-- inputs shorter than 2^31 bytes; so are the ids of nodes, which an int holds where the counter
-- starts at 1. A fault, that is an access out of bounds, a null pointer, a failed assertion or an
-- undefined shift, is the result none. A loop is a recursion on the list or the number it runs
-- over, or on fuel: build_tree is given one round more than there are nodes in the queue, the
-- loop of a byte that is read gets 8 rounds, and both are enough; atm_loop and the loop of
-- treader need one round more than there are messages in the trace. The loops over the words or
-- the lines of a text get one round more than the text has characters, and the search in a line
-- one more than the line has. The loop of the decoder needs one round more than there are
-- characters to decode. The loop that reads the records of a tree gets one round more than the
-- text has characters. The loop that reads a trace of addresses gets as many rounds as the text
-- has characters, of which each takes one at least. A number that is printed has ten digits at
-- most.
--
-- Parameters: the results of rand are a list that the writer of traces is given, of which it uses
-- one or more for each number that it draws. qsort of the C library is a parameter of the
-- priority queue, with the hypotheses that it sorts by the comparison function and keeps the
-- items; fgetc, fputc and fprintf are modelled on an open file (Base/Stdio) that may be full, and
-- the format %d of printf and scanf in Base/Decimal; fgets, strstr and isalnum are modelled where
-- they are used.
--
-- Not modelled: printing of code tables and trees, freeing, process creation, closed descriptors,
-- the rates that run_cpu prints (floating point numbers), the network client with its vendored
-- library (Client-ServerSimulation/csapp), and the two Java programs.
pub mod Base
pub mod Huffman
pub mod Bank
pub mod Cache
pub mod WordFrequency
pub mod CountStrings
