-- ===== src/Lib.antt =====
-- JS-Forth: a model of reference/jsforth.js, a Forth system in JavaScript.
--
-- The program is a machine of arrays and registers: the data stack `s` with the pointer `sp` and its top
-- item cached in `tos`, the return stack `r` with `rp`, the main memory `m` with the dictionary pointer
-- `dp`, and the instruction pointer `ip`. Each Forth word is a function without arguments that changes
-- them; `primitive` gives it a name and `describe` its stack comment. Vm.antt has the machine as a
-- record; a word is a function from machine to machine under the name of the source, `forth_rot` for
-- `forthrot`, with every array write in the order of the source.
--
-- Which file is which part of reference/jsforth.js:
--   Prelude   integers and lists over native numbers, Boolean tests, arrays as functions
--   Number    the numbers of JavaScript: sums, products and quotients rounded to 53 bits, bit operators
--             on 32-bit words
--   Vm        the variables of the machine
--   Fixture   machines for the tests
--   Stack     the section "stack operators"; Stack.View reads the list that the stack holds out of the
--             registers, Stack.Comment reads the comments of `describe`
--   Memory    the memory operators, `move`, `move$`, `-trailing`, `scan` and `skip`
--   Throw     `catch`, `throw`, `throwerror`, and the inner words `nest`, `unnest`, `execute`, `perform`
--   Arith     the sections on arithmetic, bits and comparison; Arith.Division and
--             Arith.Long the words that divide
--   Heap      `allocate`, with `searchfit`, `splitchunk` and `newchunk`, and `free`
--   Flow      the run-time words that branch, loop and push literals; Flow.Compile the functions IF, ELSE,
--             DO and so on of the script, that compile them, as `compile_if` and so on
--   Pictured  `<#`, `hold`, `sign`, `#>`, and `here`, `allot` and `,`
--   Digit     number input: `digit`, `?number` and the words that use it
--   Words     the words that the script defines by `colon`, as lists of calls, and what the calls compile;
--             Words.Catalog has them in the order of the source
--   Inner     `virtualmachine`, and what the array `t` holds for each kind of word; Inner.Meaning has what
--             structured code means, and Inner.Refine what the inner interpreter makes of it
--   Input     `parse`, the sources, the keys that are buffered, and the line editor of `accept`
--   Dictionary  headers, and their search by vocabularies and standards; Dictionary.Header the words on
--             flags, vocabularies, bodies and markers, Dictionary.Define the words that make headers,
--             Dictionary.Linkage the functions that make primitives, constants and
--             variables, and what the arrays `x` and `t` hold for these
--   Blocks    the buffers and the map from blocks to buffers, and the drives; Blocks.Web the requests to the web
--             server, its answers and the watchdog
--   Terminal  the lines of the terminal: `type`, `cr`, `cls`, `backspaces`
--   Console   the words that write to the terminal; Console.Info the info screen, Console.Listing the listings of
--             words, vocabularies, buffers and chunks
--   Events    the handlers of keys and errors, error messages, the clock, the warm start, and the cookie words;
--             `virtualmachine_keys` is `virtualmachine` with the keys that wait, which a key enters again
--   Utility   the terminal's lines as memory, the time, the sizes of the drives and of the info screen
--   Floats    the words of the float stack; the numbers of JavaScript and its Math functions are parameters
--   Text      `pack`, `unpackstring`, and the cookies
--
-- How the parts interact: all words share the machine. `move$` calls `move`, `erase` calls `fill`, `m*`
-- calls `um*`; a division by 0 calls `throwerror`, which unwinds to the frame that `catch` built on the
-- return stack, or reports the code to the world outside as an event. The heap's words keep their own
-- arrays of chunks beside the machine and the sizes of the chunks in its memory. The words of Words are
-- compiled by the functions of Flow.Compile. `block` loads from a drive what the input then reads with
-- `parse`, and `search` finds the words that `interpret` compiles or runs; a number is what it does not
-- find. The inner interpreter runs the cells that the words of Words compile; it stops where a word suspends
-- it, as `key1` and a request for a block do, and an event starts it again.
--
-- Choices. A cell is an integer, and an array has a value at every index; the source also keeps
-- JavaScript strings in cells, and reads `undefined` from a cell that it never wrote. Results of `+`, `-`
-- and `*` are rounded to 53 bits as doubles are, and those of the bit operators wrap to 32 bits; a
-- quotient is a whole number of units of 2 ^ -1075. Address arithmetic stays far below 2 ^ 53 and is
-- exact. The fuel of `bit_count` is 4096 bits: a double is below 2 ^ 1024 and scaled by 2 ^ 1075 at
-- most. `type_loop` has as fuel the length of the line that it breaks, of which each round takes 80
-- characters; the check that the structures of a word are closed has the number of its calls. A loop that
-- counts a negative number down to 0 does not end: the word returns `none`, and the
-- theorems on such words prove that they return a machine where the count is not negative. The execution
-- of a word through its type, `t[w]()`, is a parameter of the words that use it. `virtualmachine` and `virtualmachine_keys` have as
-- fuel the words that they run; the array `x`, which holds functions and addresses, is read at the type that its reader
-- expects. The meaning of structured code is a relation without fuel; it leaves the registers `ip` and `w`
-- out, and words have in it the effects that a parameter gives them.
--
-- The search keeps the vocabulary stack with the top first, and returns header numbers, 0 for none. The
-- lower case of a text, the order that `sort` puts chunks in, and the browser, with its cookies and its
-- spelling of numbers, are parameters.
--
-- Not modelled: what the browser shows, and the handlers that only return; the cold start and the greeting;
-- the linkage of a word that `vocabulary` defines; the help texts; the meaning of `?DO ... LOOP` and of code
-- that leaves a loop, although their compiling is modelled; and Post4 itself, the C
-- program of this repository.
pub mod Prelude
pub mod Number
pub mod Vm
pub mod Fixture
pub mod Stack
pub mod Memory
pub mod Throw
pub mod Flow
pub mod Pictured
pub mod Arith
pub mod Heap
pub mod Digit
pub mod Words
pub mod Inner
pub mod Input
pub mod Dictionary
pub mod Blocks
pub mod Floats
pub mod Text
pub mod Terminal
pub mod Console
pub mod Events
pub mod Utility
