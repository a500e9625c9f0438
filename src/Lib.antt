-- ===== src/Lib.antt =====
-- The operating-systems exercises of this repository, directories cw1 to cw11: small C programs for
-- Linux that share memory, pass messages and signals, and copy files. The exercises do not call each
-- other. Within an exercise the programs meet in shared memory (cw8), in message queues (cw7), on
-- sockets (cw11), in pipes (cw6) or as threads of one process (cw9, cw10).
--
-- Parts and files
--   Prelude    shared names: tests, lists and integers over native numbers, C strings, and families
--              of threads with weighted sums (Family)
--   Spooler    cw8. Machine: the shared buffer of cw8/buffer.h with its three semaphores, the loops
--              of cw8/client.c and cw8/printers.c as moves between program points, one shared access
--              at a time, for any number of clients and printers. Text: the C strings they copy.
--              Window and Invariant: what holds between the steps. SystemV and Simulation:
--              cw8/clientv.c and cw8/printersv.c, with sem_op on an array of semaphores. Setup and
--              SetupV: how the four programs begin. Restart: a start on a segment in use.
--   Santa      cw10/zad10.c. Machine: reindeer_mechanic and santa_mechanic as moves around the mutex
--              and the two condition variables; a wait may also end with no signal. Main: main.
--   Life       cw9. Grid: is_alive and update_grid of cw9/grid.c on the list of cells. Draw:
--              draw_grid. Threads: the workers of cw9/life.c with their shares, the signals of main
--              and its swap of the grids. Startup: main before its loop.
--   Copy       cw3/zad1.c. Stream: the files. Bytes: reverse_copy. Blocks: reverse_copy_1024buffer.
--              Main: main.
--   Flipper    cw3/DziwakNorbert-cw03/flipper.c over the files of two directories, which may be the
--              same; it uses reverse_copy of Copy. The files have numbers, and which file a path names
--              is an argument, since several paths may name one file.
--   Collatz    cw2/collatzlib. Step and Search: collatz.c on the 32-bit int, the step with its
--              overflow, the search. Client: client.c.
--   Fork       cw4 and cw5/zadanie1. Descendants: cw4/zad1/descendant.c, the parent and its children
--              as steps. Exec: cw4/zad2/descendant.c. Disposition: cw5/zadanie1/SIGUSR1.c.
--   Integrals  cw6. Floats: function and intergral, over any type with the operations of float.
--              Processes: main of cw6/zadanie1/integrals.c, the parent, its children and their pipes
--              as steps. Fifo: cw6/zadanie2/integral.c.
--   Catcher    cw5/zadanie2/catcher.c. Machine: the loop of main and actionFunction, which may run
--              between any two of its steps.
--   MqChat     cw7. Message: cw7/messeage.h, and the log of what is done with queues. Server: the
--              loop of cw7/server.c, one function per message (INIT, MESSAGE, STOP), a turn per
--              message received. ServerV: cw7/serverv.c. Client: the two processes of cw7/client.c.
--              Session: the client's messages handled by the server. LongType: a message as the calls
--              of System V read it. ClientV: the two processes of cw7/clientv.c.
--   SocketChat cw11. Table: the clients of cw11/server.c, send_to_all, send_to_one, and the critical
--              sections that add and remove a client. Command: the text commands. Threads:
--              client_handler, check_alive, alive_checker and the loop of main, as steps on a list of
--              threads. Client: cw11/client.c. Typing and Receiving: the client and the server
--              together. Names: slots that are used again.
--
-- State and errors. The state of a program is a record, passed on by its functions or changed by the
-- constructors of a step relation. exit and return codes are values; an access outside an array, a
-- read through a null pointer and a signed overflow are values of their own (fault, crashed, overrun,
-- undefined, overflow) or, in Spooler, the absence of a step. A char is a number, an array a list.
--
-- Fuel. search of Collatz gets one more than max_iter, which its loop cannot use up.
-- reverse_copy_1024buffer takes its fuel as an argument, since its loop has no bound; rounds runs
-- the loop that many times. intergral takes its fuel as an argument; Integrals/Sum tells when it is
-- enough. The other loops are structural on a list or on a number.
--
-- Left open, as arguments. What the system answers (System of MqChat, Answers of Spooler), what is
-- typed or received and when the signal comes (Turn, Typed), the dates of ctime, the entries of a
-- directory, the file that a path names and the access rights, the values of rand, how ls ends, the
-- operations of float, the order of all steps. A send that blocks is a turn that never comes.
-- msgsnd is only known to refuse a message whose type is not positive.
--
-- Not modelled. The set-up of the queues of the servers, of sockets and terminals, sleeping, and
-- what follows a loop that no process leaves; cw1/countdown.c, cw5/zadanie2/sender.c and
-- cw6/zadanie2/sender.c, which make a few calls in a row; recv_mutex of cw11/server.c, which only
-- orders reads of one socket. The names that the clients of cw11 send have no zero byte. A handler
-- of cw11 is taken to read its index while the loop variable that it points to is still there.
-- cw4/zad1 takes a number of children that is not negative.
pub mod Catcher
pub mod Collatz
pub mod Copy
pub mod Flipper
pub mod Fork
pub mod Integrals
pub mod Life
pub mod MqChat
pub mod Prelude
pub mod Santa
pub mod SocketChat
pub mod Spooler
