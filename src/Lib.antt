-- ===== src/Lib.antt =====
-- The entropy experiments of this repository: the timer seeds that a patched kernel collects while it
-- boots, the module that samples the timer afterwards, and the assessment suite that judges the
-- samples.
--
-- How the parts interact. Every read of the kernel's counter (arch_counter_get_cntvct in
-- arch_timer.h) calls try_timer_kh, which collects seeds in the variables of kh.c. start_kernel
-- prints them, and the module deltats.c shows them in sysfs next to readings of its own. The rest of
-- main.c takes the boot options, runs the initcalls and starts init. The files of samples go to the
-- tools in SP800-90B_EntropyAssessment.
--
-- The files, with their paths from the repository's root; in the kernel's case below
-- kernel-and-more/board/linux-imx:
--   Common: lists, options, machine words, bit masks and decimal text that the parts share.
--   Kernel.Seeds: kernel/kh.c, include/kh.h and try_timer_kh of arch/arch64/include/arch_timer.h.
--     KhState holds the exported atomics and the array; try_timer_kh is one call, run a sequence.
--     Branches and Step give its paths, Valid and Runs the invariant, Bits and Packing the content
--     of a seed, Count and Reference how many seeds there are and what a delta is.
--   Kernel.Seeds.Races: the same function as its atomic accesses (access), which moves of several
--     processors interleave (interleave). Cpus is about all interleavings, Single about the calls of one
--     processor among suspended ones.
--   Kernel.TimerRegs: the register accessors of arch_timer.h, with get_tsc of kh.c.
--   Kernel.Params: init/main.c: obsolete_checksetup, repair_env_string, set_init_arg,
--     unknown_bootoption, init_setup, rdinit_setup, set_reset_devices, do_early_param.
--   Kernel.Initcalls: init/main.c: initcall_blacklist, initcall_blacklisted, do_one_initcall,
--     do_initcalls, do_pre_smp_initcalls.
--   Kernel.Start: init/main.c: start_kernel, with the calls into other parts as phases.
--   Kernel.Startup: init/main.c: kernel_init, kernel_init_freeable, run_init_process,
--     try_to_run_init_process.
--   Kernel.RestInit: init/main.c: rest_init and kernel_init as two threads.
--   Deltats: deltats.c: the four sysfs files, mymodule_init and mymodule_exit.
--   In the assessment suite's case below SP800-90B_EntropyAssessment/cpp:
--   Assess.Samples: shared/utils.h: read_file, read_file_subset. Width is about the width of the data.
--   Assess.Shuffle: shared/utils.h: xoshiro256starstar, xoshiro_jump, randomRange64, FYshuffle.
--   Assess.Stats: shared/utils.h: calc_stats, substr, fast_substr, compressedBitSymbols,
--     recreateCommandLine. Assess.Postfix: its class PostfixDictionary. Assess.Predict: its
--     calc_p_local and predictionEstimate.
--   Assess.Permutation: iid/permutation_tests.h: the statistics.
--   Assess.Estimates: non_iid/collision_test.h and shared/most_common.h.
--   Assess.Lag: non_iid/lag_test.h. Ring, Round and Loop follow its ring buffers through the loop;
--     Direct is the comparison with each of the last 128 symbols.
--   Assess.MultiMcw: non_iid/multi_mcw_test.h. Counts, Modes and Moves are about one window, Passed and
--     Initial about the initial counts, Rounds about the loop.
--   Assess.Matrix: the counts and the transposition of the restart matrix in restart_main.cpp and
--     transpose_main.cpp. Assess.Transpose: the rest of transpose_main.cpp.
--   Assess.Restart: restart_main.cpp: Stages are the sections of the tests, Program is main.
--     Endings is about the sanity check, Lowest about the results, Document, Tested and Judged about
--     what is written and why.
--     Assess.Minimum and Assess.Arguments: the lowest result and the options that the mains share.
--   Assess.Initial: non_iid_main.cpp (NonIid) and iid_main.cpp (Iid).
--   Assess.Digest: shared/TestRunUtils.h: sha256_file.
--
-- Conventions. A machine word is the number of its bit pattern, and wraps where it is written out;
-- undefined behaviour and failed assertions are `none`. A counter that cannot exceed the number of
-- samples, which is an int, is not wrapped. The kernel is taken to be built so that signed overflow
-- and shifts into the sign bit wrap. Loops are recursion on the data, with four exceptions: the
-- redraws of randomRange64 have no bound in the code, so they have fuel, and the theorems say that
-- only a sequence of draws that are all rejected uses it up; alone of Kernel.Seeds.Races counts the
-- accesses of a call, which are eleven at most; the loop of sha256_file has fuel for its reads, and
-- the theorem on it says how many are enough; the loop of lag_test over a ring has fuel for 256
-- rounds, of which a ring has 128 at most. The search for p_local has its own bound, ITERMAX.
--
-- Parameters are what the sources call and do not define: the counter and the delays (Timer), the
-- registers (Hardware), the phases of the boot (System), programs, console and namespace (Machine of
-- Kernel.Startup), the bodies of initcalls, the option parser's comparisons, the file functions (Host
-- and Disk), OpenSSL's digest (Evp), and the arithmetic on doubles (Double). The tools take the tests
-- other than the most common value and collision estimates as an argument (Suite), also the two
-- predictors of Assess.Lag and Assess.MultiMcw, with the calls around them (Machine of Assess.Restart
-- and Computer of Assess.Initial), and the search for p_local takes the function on long doubles that
-- it searches (Search).
--
-- Not modelled: printing, other than the text of the sysfs files, and the text of the JSON documents;
-- what the phases of start_kernel do; locks and rcu; the debug output of initcalls; the excursion,
-- compression and chi-square statistics; the predictors multi_mmc_test and LZ78Y_test, but for their
-- dictionary and their estimate; the Markov and compression estimates, and those by suffix arrays;
-- simulateBound and simulateCount of restart_main.cpp; getCurrentTimestamp; conditioning_main.cpp; the
-- scripts, build files and the kernel patch as text.
pub mod Assess
pub mod Common
pub mod Deltats
pub mod Kernel
